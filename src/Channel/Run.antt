-- ===== src/Channel/Run.antt =====
-- The callbacks of `handleEventSafely` in their order, on the state of the channel's owner.
use trantor.Prelude.{Option, some, List, [], ◌∷◌, ◌>>=◌}
use trantor.Channel.{
  Callback, event_callback, close_callback, error_callback, read_callback, write_callback,
}

-- What the owner of a channel does in each callback; `none` is a failed assertion.
pub record Handlers {ℓ} (A : Type ℓ) : Type ℓ where
  pub on_close : A → Option A
  pub on_error : A → Option A
  pub on_read : A → Option A
  pub on_write : A → Option A

abbrev pub run_callback {ℓ} : {A : Type ℓ} → Handlers A → Callback → A → Option A
run_callback h event_callback a = some a
run_callback h close_callback a = h.on_close a
run_callback h error_callback a = h.on_error a
run_callback h read_callback a = h.on_read a
run_callback h write_callback a = h.on_write a

abbrev pub run_callbacks {ℓ} : {A : Type ℓ} → Handlers A → List Callback → A → Option A
run_callbacks h [] a = some a
run_callbacks h (k ∷ ks) a = run_callback h k a >>= λ b. run_callbacks h ks b
