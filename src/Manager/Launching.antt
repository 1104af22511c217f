-- ===== src/Manager/Launching.antt =====
-- src/models/request_manager.cpp: the start of a request keeps what holds between two events.
use flowdriver.Base.{
  ℕ, Text, List, Option, Bool, true, false, if◌then◌else◌, none, some, ◌≡◌, refl, arith,
}
use flowdriver.Manager.Defs.{World, Manager, Run, emit}
use flowdriver.Types.{RequestConfig, Header}
use flowdriver.Manager.Requests.{launched, launch, validated, start_request, execute_request}
use flowdriver.Manager.Steps.{is_owned, is_pending, is_awaited, is_sound, is_due, waits, is_kept}
use flowdriver.Manager.Sound
use flowdriver.Manager.Defs.{loading_changed}
use flowdriver.Manager.Kept.{sound_after}

-- What is started is awaited, and what could not be started is not loading.
pub launched_lem :
    (id : ℕ)
    → (c : RequestConfig) → (o : Option Text) → (m : Manager) → is_kept (λ _ _ _. true) m ≡ true
    → is_sound (launched id c o m) ≡ true
unfolding is_sound is_kept is_owned waits is_awaited is_pending is_due
launched_lem id c none m e = ground arith
launched_lem id c (some x) m e = ground arith

pub launch_lem :
    (w : World)
    → (o : Option ℕ) → (c : RequestConfig) → (m : Manager) → is_kept (λ _ _ _. true) m ≡ true
    → sound_after (launch w o c m) ≡ true
unfolding sound_after
launch_lem w none c m e = refl
launch_lem w (some id) c m e = launched_lem id c _ m e

pub loading_lem :
    (m : Manager)
    → is_sound m ≡ true
    → is_kept (λ _ _ _. true) (emit loading_changed (record m { is_loading = true })) ≡ true
unfolding is_sound is_kept is_owned waits
loading_lem m e = ground arith

pub start_lem :
    (w : World)
    → (c : RequestConfig) → (m : Manager) → is_sound m ≡ true
    → sound_after (start_request w c m) ≡ true
unfolding start_request
start_lem w c m e =
    launch_lem w _ _ _ (Sound.set_protocol_lem (λ _ _ _. true) w _ _ (loading_lem m e))

pub validated_lem :
    (w : World)
    → (c : RequestConfig) → (o : Option Text) → (m : Manager) → is_sound m ≡ true
    → sound_after (validated w c o m) ≡ true
unfolding sound_after is_sound
validated_lem w c none m e = start_lem w c m e
validated_lem w c (some x) m e = Sound.emit_lem is_awaited _ m e

pub guard_lem :
    (b : Bool)
    → (r s : Run) → sound_after r ≡ true
    → sound_after s ≡ true
    → sound_after (if b then r else s) ≡ true
guard_lem true r s p q = p
guard_lem false r s p q = q

pub request_lem :
    (w : World)
    → (method url : Text) → (headers : List Header) → (body : Text) → (m : Manager)
    → is_sound m ≡ true
    → sound_after (execute_request w method url headers body m) ≡ true
unfolding execute_request sound_after is_sound
request_lem w method url headers body m e =
    guard_lem m.is_loading _ _ (Sound.emit_lem is_awaited _ m e) (validated_lem w _ _ m e)
