-- ===== src/PowerMonitor/Cooldown.antt =====
-- What the handling of a confirmed change leaves, and how often it sends.
use voltyk_bot_v3_python.Prelude.{
  ℕ, ◌+◌, ◌<◌, ◌≡◌, refl, ap, ◌∙◌, Bool, true, false, Option, none, some, [], ◌∷◌, arith, is_empty,
  length,
}
use voltyk_bot_v3_python.Prelude.Text.{Text}
use voltyk_bot_v3_python.PowerMonitor.{Power, UserState, Monitor, get_state, mark_dirty, put_state}
use voltyk_bot_v3_python.PowerMonitor.Notice.{
  Loaded, no_user, loaded, FreshUser, PowerResult, World, should_notify, sending_of, handle_loaded,
  handle_power_state_change, Reply, sent, forbidden, failed, send_all, to_user,
}
use voltyk_bot_v3_python.PowerMonitor.Validity.{IsValid}
use voltyk_bot_v3_python.PowerMonitor.Debounce.{keep}

-- what a sending notes in the state
noted_last :
    (w : World) (tid : ℕ) (p : Power) (original : Option ℕ) (due : Bool) (user : FreshUser)
    (result : Option PowerResult) (us : UserState)
    → is_empty (handle_loaded w tid p original due user result us).sends ≡ false
    → (handle_loaded w tid p original due user result us).state.last_notification_at ≡ some w.now
unfolding handle_loaded
noted_last w tid p original true user result us h = refl
noted_last w tid p original false user result us h = cc

handled_last :
    (w : World) (tid : ℕ) (p : Power) (original : Option ℕ) (l : Loaded) (us : UserState)
    → is_empty (handle_power_state_change w tid p original l us).sends ≡ false
    → (handle_power_state_change w tid p original l us).state.last_notification_at ≡ some w.now
unfolding handle_power_state_change
handled_last w tid p original no_user us h = cc
handled_last w tid p original (loaded user result) us h =
    noted_last w tid p original (should_notify w.cooldown w.now us.last_notification_at) user result
      us h

not_due :
    (w : World) (tid : ℕ) (p : Power) (original : Option ℕ) (l : Loaded) (us : UserState) (last : ℕ)
    → us.last_notification_at ≡ some last
    → w.now < last + w.cooldown
    → (handle_power_state_change w tid p original l us).sends ≡ []
unfolding handle_power_state_change handle_loaded
not_due w tid p original no_user us last e h = refl
not_due w tid p original (loaded user result) us last e h =
    let cool : should_notify w.cooldown w.now us.last_notification_at ≡ false =
      ap (should_notify w.cooldown w.now) e ∙ ground arith in
    ap (λ (due : Bool). (sending_of w tid p original due user result).sends) cool

-- After a handling that has called Telegram at all, a handling of the same user's state before
-- the cooldown is over calls it neither for the user nor for the channel.
pub handle_power_state_change-cooldown :
    (w w' : World) (tid : ℕ) (p p' : Power) (original original' : Option ℕ) (l l' : Loaded)
    (us : UserState)
    → is_empty (handle_power_state_change w tid p original l us).sends ≡ false
    → w'.now < w.now + w'.cooldown
    → (handle_power_state_change w' tid p' original' l'
        (handle_power_state_change w tid p original l us).state).sends
      ≡ []
handle_power_state_change-cooldown w w' tid p p' original original' l l' us h soon =
    not_due w' tid p' original' l' (handle_power_state_change w tid p original l us).state w.now
      (handled_last w tid p original l us h) soon

-- What a handling leaves alone: the fields that the debounce machine reads.
record Keeps (us us' : UserState) : Type 0 where
  current_state : us'.current_state ≡ us.current_state
  is_first_check : us'.is_first_check ≡ us.is_first_check
  pending_state : us'.pending_state ≡ us.pending_state
  debounce_task : us'.debounce_task ≡ us.debounce_task

handle_loaded-Keeps :
    (w : World) (tid : ℕ) (p : Power) (original : Option ℕ) (due : Bool) (user : FreshUser)
    (result : Option PowerResult) (us : UserState)
    → Keeps us (handle_loaded w tid p original due user result us).state
unfolding handle_loaded
handle_loaded-Keeps w tid p original true user result us = ground arith
handle_loaded-Keeps w tid p original false user result us = ground arith

-- a user who has blocked the bot
send_all-blocked :
    (b : Bool) (tid : ℕ) (msg : Text) (channel : Option Text) (r c : Reply)
    → (send_all b tid msg channel r c).blocked ≡ true
    → (send_all b tid msg channel r c).sends ≡ to_user tid msg ∷ []
unfolding send_all
send_all-blocked false tid msg channel r c h = cc
send_all-blocked true tid msg channel forbidden c h = refl
send_all-blocked true tid msg channel failed c h = cc
send_all-blocked true tid msg channel (sent id) c h = cc

loaded-blocked :
    (w : World) (tid : ℕ) (p : Power) (original : Option ℕ) (due : Bool) (user : FreshUser)
    (result : Option PowerResult) (us : UserState)
    → (handle_loaded w tid p original due user result us).deactivated ≡ true
    → (length (handle_loaded w tid p original due user result us).sends ≡ 1)
      × ((handle_loaded w tid p original due user result us).persisted ≡ none)
unfolding handle_loaded
loaded-blocked w tid p original false user result us h = cc
loaded-blocked w tid p original true user result us h =
    (ap length (send_all-blocked _ tid _ _ w.bot_reply w.channel_reply h), ground arith)

-- A user who is found to have blocked the bot has been sent that one message and nothing goes to
-- the channel, and no message's id is kept.
pub handle_power_state_change-blocked :
    (w : World) (tid : ℕ) (p : Power) (original : Option ℕ) (l : Loaded) (us : UserState)
    → (handle_power_state_change w tid p original l us).deactivated ≡ true
    → (length (handle_power_state_change w tid p original l us).sends ≡ 1)
      × ((handle_power_state_change w tid p original l us).persisted ≡ none)
unfolding handle_power_state_change
handle_power_state_change-blocked w tid p original no_user us h = cc
handle_power_state_change-blocked w tid p original (loaded user result) us h =
    loaded-blocked w tid p original (should_notify w.cooldown w.now us.last_notification_at) user
      result us h

loaded-settled :
    (w : World) (tid : ℕ) (p : Power) (original : Option ℕ) (due : Bool) (user : FreshUser)
    (result : Option PowerResult) (us : UserState)
    → ((handle_loaded w tid p original due user result us).state.last_stable_state ≡ some p)
      × ((handle_loaded w tid p original due user result us).state.instability_start ≡ none)
      × ((handle_loaded w tid p original due user result us).state.switch_count ≡ 0)
unfolding handle_loaded
loaded-settled w tid p original true user result us = (refl, refl, refl)
loaded-settled w tid p original false user result us = (refl, refl, refl)

-- Handling a change of a known user keeps a valid monitor valid, so that it disturbs no debounce
-- task, and where the user's row is found, whatever is sent, records the new state as the stable
-- one and forgets the flaps before it.
pub handle_power_state_change-IsValid :
    (w : World) (tid : ℕ) (p : Power) (original : Option ℕ) (user : FreshUser)
    (result : Option PowerResult) (us : UserState) (m : Monitor)
    → IsValid m
    → get_state tid m ≡ some us
    → IsValid (
        mark_dirty tid (
          put_state tid
            (handle_power_state_change w tid p original (loaded user result) us).state
            m))
      × ((handle_power_state_change w tid p original
            (loaded user result)
            us).state.last_stable_state
          ≡ some p)
      × ((handle_power_state_change w tid p original
            (loaded user result)
            us).state.instability_start
          ≡ none)
      × ((handle_power_state_change w tid p original (loaded user result) us).state.switch_count
          ≡ 0)
unfolding handle_power_state_change
handle_power_state_change-IsValid w tid p original user result us m v held =
    let due = should_notify w.cooldown w.now us.last_notification_at in
    let k = handle_loaded-Keeps w tid p original due user result us in
    let (stable, calm, count) = loaded-settled w tid p original due user result us in
    (
      keep m v tid us held (handle_loaded w tid p original due user result us).state k.debounce_task
          k.pending_state (λ q e. ground (arith, v.apart tid us held q)) _,
      stable,
      calm,
      count,
    )
