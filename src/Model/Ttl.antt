-- ===== src/Model/Ttl.antt =====
-- MessageUtils.touchMessage and MessageUtils.isMessageAlive.
pub mod Tests
use web_socketaa_s.Prelude.{
  ◌<◌, false, ◌∙◌, ◌+◌, ◌^◌, ltb, if◌then◌else◌, ◌≡◌, true, arith, ◌≤◌, ℕ, Option, none, some, Bool,
  ℤ, pos, negsuc, is_positive, int_sub, ◌-◌, zero, suc,
}
use web_socketaa_s.Model.Message.{Message}

-- null counts as 10
abbrev pub ttl_or_default : Option ℤ → ℤ
ttl_or_default none = pos 10
ttl_or_default (some n) = n

unfoldable pub is_message_alive : Message → Bool
is_message_alive m = is_positive (ttl_or_default m.meta.ttl)

-- touchMessage(message, count)
unfoldable pub touch_message_by : ℕ → Message → Message
touch_message_by count m = record m {
  meta = record m.meta { ttl = some (int_sub (ttl_or_default m.meta.ttl) count) };
}

-- touchMessage(message)
unfoldable pub touch_message : Message → Message
unfolding touch_message_by
touch_message = touch_message_by 1

-- How often a message can still be processed: each time it is touched first, and then has to be
-- alive. The lowest `int` wraps to the highest.
abbrev pub rounds_of : ℤ → ℕ
rounds_of (pos n) = n - 1
rounds_of (negsuc n) = if ltb (n + 1) (2 ^ 31) then 0 else 2 ^ 32 - 1 - (n + 1)

unfoldable pub rounds : Message → ℕ
rounds m = rounds_of (ttl_or_default m.meta.ttl)

pub rounds-touch_message :
    (m : Message)
    → is_message_alive (touch_message m) ≡ true
    → rounds m ≡ suc (rounds (touch_message m))
unfolding rounds touch_message is_message_alive
rounds-touch_message m h = ground arith

-- A message that was touched some times.
unfoldable pub touched : ℕ → Message → Message
unfolding touch_message
touched zero m = m
touched (suc n) m = touched n (touch_message m)

dead-touched :
    (m : Message) (k n : ℕ)
    → ttl_or_default m.meta.ttl ≡ negsuc n
    → n + k < 2 ^ 31
    → is_message_alive (touched k m) ≡ false
unfolding touched is_message_alive
dead-touched m zero n e small = rw e
dead-touched m (suc k) n e small =
    dead-touched (touch_message m) k (n + 1) (ground arith) (omega arith)

-- A message whose time to live is not negative is alive after k touches exactly when k is smaller
-- than its time to live (10, if it has none), for k up to 2^31.
pub is_message_alive-touched :
    (m : Message) (k n : ℕ)
    → ttl_or_default m.meta.ttl ≡ pos n
    → k ≤ 2 ^ 31
    → is_message_alive (touched k m) ≡ ltb k n
unfolding touched is_message_alive
is_message_alive-touched m zero n e small = rw e
is_message_alive-touched m (suc k) zero e small =
    dead-touched (touch_message m) k 0 (ground arith) (omega arith) ∙ ground arith
is_message_alive-touched m (suc k) (suc n) e small =
    is_message_alive-touched (touch_message m) k n (ground arith) (omega arith) ∙ ground arith
