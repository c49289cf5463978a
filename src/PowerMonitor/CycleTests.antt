-- ===== src/PowerMonitor/CycleTests.antt =====
-- A cycle of checks of two users behind one router, and of one who has no address.
use voltyk_bot_v3_python.Prelude.{
  ℕ, ◌-◌, refl, true, none, some, List, [], ◌∷◌, ◌++◌, arith, ◌==◌, if◌then◌else◌,
}
use voltyk_bot_v3_python.Prelude.Text.{codes, is_space, text_eq}
use voltyk_bot_v3_python.Users.{User}
use voltyk_bot_v3_python.Address.{Unicode, is_ascii_digit}
use voltyk_bot_v3_python.PowerMonitor.{Monitor}
use voltyk_bot_v3_python.PowerMonitor.Validity.{IsValid}
use voltyk_bot_v3_python.PowerMonitor.Interleaved.{
  Merged, finished, first, second, Interleaved, empty, with_list,
}
use voltyk_bot_v3_python.PowerMonitor.Sweep.{works, Cycle, check_all_ips}
use voltyk_bot_v3_python.PowerMonitor.Cycles.{monitored, Swept, check_all_ips-Swept}

-- one group after the other
abbrev in_turn : {A : Type 0} → List (List A) → List A
in_turn [] = []
in_turn (xs ∷ xss) = xs ++ in_turn xss

module _ {A : Type 0} where
  second_all : (ys : List A) → Merged [] ys ys
  second_all [] = finished
  second_all (y ∷ ys) = second y [] ys ys (second_all ys)

  append-Merged : (xs ys : List A) → Merged xs ys (xs ++ ys)
  append-Merged [] ys = second_all ys
  append-Merged (x ∷ xs) ys = first x xs ys (xs ++ ys) (append-Merged xs ys)

  in_turn-Interleaved : (xss : List (List A)) → Interleaved xss (in_turn xss)
  in_turn-Interleaved [] = empty
  in_turn-Interleaved (xs ∷ xss) =
      with_list xs xss (in_turn xss) (xs ++ in_turn xss) (in_turn-Interleaved xss)
        (append-Merged xs (in_turn xss))

abbrev ascii : Unicode
ascii = record {
  is_space = is_space;
  decimal = λ c. if is_ascii_digit c then some (c - b'0') else none;
  is_digit = is_ascii_digit;
}

abbrev oles : User
oles = record {
  id = 1;
  telegram_id = 11;
  is_active = true;
  region = codes "kyiv";
  queue = codes "3.1";
  router_ip = some (codes "93.1.2.3");
  notification_settings = none;
  channel_config = none;
  message_tracking = none;
}

abbrev olha : User
olha = record oles { id = 2; telegram_id = 12 }

abbrev orest : User
orest = record oles { id = 3; telegram_id = 13; router_ip = none }

abbrev table : List User
table = olha ∷ orest ∷ oles ∷ []

abbrev row : ℕ → User
row tid = if tid == 11 then oles else if tid == 12 then olha else orest

abbrev cycle : Cycle
cycle = record {
  batch_size = 500;
  query = λ a. works;
  max_states = 1000;
  stale_after = 3600;
  now = 100;
  checked_at = λ tid. 101;
  timer_at = λ tid. 102;
  debounce_s = λ tid. 300;
  power_tracking = λ tid. none;
  unicode = ascii;
  reach = λ host port. text_eq host (codes "93.1.2.3");
}

abbrev fresh : Monitor
fresh = record { user_states = []; dirty_states = []; tasks = []; next_task = 0 }

fresh-IsValid : IsValid fresh
fresh-IsValid = record {
  owned = λ id t found live. cc;
  fresh = λ id le. refl;
  apart = λ tid us found. cc;
}

check_all_ips-Swept_example :
    Swept cycle row in_turn in_turn-Interleaved
      (monitored table)
      (check_all_ips cycle in_turn 3 table fresh)
check_all_ips-Swept_example =
    check_all_ips-Swept cycle row in_turn in_turn-Interleaved 3 table fresh (λ a. refl)
      (omega arith)
      (
        (λ e. omega (arith, e), (λ e. omega (arith, e), tt)),
        ((λ e. omega (arith, e), tt), (tt, tt)),
      )
      (refl, (refl, (refl, tt))) (omega arith) (omega arith) fresh-IsValid tt
