-- ===== src/Domains/Crossing/Tests.antt =====
-- A message that crosses from domain-01 to domain-02.
use web_socketaa_s.Prelude.{refl, none, [], true, ok}
use web_socketaa_s.Text.Plain.{plain}
use web_socketaa_s.Text.Numbers.{parse_long}
use web_socketaa_s.Model.Message.{build}
use web_socketaa_s.Model.Jackson.Plain.{plain_jackson}
use web_socketaa_s.Apps.{parse, is_valid, get_client_app_by_user_id, resolve_domain}
use web_socketaa_s.Processor.{Host}
use web_socketaa_s.Processor.Service.{process}
use web_socketaa_s.Processor.Tests.{host, world}
use web_socketaa_s.Domains.Tunnel
use web_socketaa_s.Domains.Tunnel.{DomainTunnel}
use web_socketaa_s.Domains.Crossing.{Crosses, process_cross_domain_message-Crosses}

abbrev there : Host
there = record host {
  domain_name = "domain-02";
  next_domain = λ domain. ok none;
  next_domain_ends = λ domain e. cc e;
}

abbrev client : Tunnel.Host
client = record {
  strings = plain;
  jackson = plain_jackson;
  runtime = host.runtime;
  domain_name = "domain-02";
}

abbrev tunnel : DomainTunnel
tunnel = record {
  has_client = true;
  is_open = true;
  is_authenticated = true;
  sent = [];
  reconnections = 0;
  disconnections = 0;
  arrived = [];
  used = 0;
}

process_cross_domain_message-Crosses_example :
    Crosses host there client (process host 3) world tunnel 2
unfolding build resolve_domain get_client_app_by_user_id parse is_valid parse_long
process_cross_domain_message-Crosses_example =
    process_cross_domain_message-Crosses host there client (process host 3) world tunnel 2 refl refl
