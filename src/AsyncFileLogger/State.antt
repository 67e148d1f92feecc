-- ===== src/AsyncFileLogger/State.antt =====
-- The invariant of the buffers.
use trantor.Prelude.{
  ℕ, ◌≤◌, ◌<◌, ◌≡◌, refl, sym, ap, ◌∙◌, Option, some, none, List, [], ◌∷◌, ◌++◌, ◌>>=◌, arith,
  length, append-nil, append_assoc,
}
use trantor.AsyncFileLogger.{mem_buffer_size, Buffer, AsyncFileLogger, Library, cleared, texts}
pub use trantor.LoggerFile.Runs.{joined}

-- An allocator that gives what is asked for.
pub record Allocates (lib : Library) : Type 0 where
  pub reserves : mem_buffer_size ≤ lib.reserved
  pub grows : (c n : ℕ) → n ≤ lib.grown c n

-- A buffer within its capacity, which is not below `kMemBufferSize`; no machine holds 2 ^ 63 bytes.
pub record Fits (b : Buffer) : Type 0 where
  pub within : length b.text ≤ b.capacity
  pub big : mem_buffer_size ≤ b.capacity

abbrev pub AllFit : List Buffer → Type 0
AllFit [] = Unit
AllFit (b ∷ bs) = Fits b × AllFit bs

abbrev pub NextFits : Option Buffer → Type 0
NextFits none = Unit
NextFits (some b) = Fits b

-- What has been accepted and not been handed to the file.
abbrev pub pending : Buffer → AsyncFileLogger → List ℕ
pending b l = joined (texts l.tmp_buffers) ++ (joined (texts l.write_buffers) ++ b.text)

-- The current buffer is `b`.
pub record Buffers (b : Buffer) (l : AsyncFileLogger) : Type 0 where
  pub current : l.log_buffer ≡ some b
  pub fits : Fits b
  pub next_fits : NextFits l.next_buffer
  pub write_fit : AllFit l.write_buffers
  pub tmp_fit : AllFit l.tmp_buffers
  pub few : length l.write_buffers ≤ 26
  pub full : 25 < length l.write_buffers → b.text ≡ []
  pub lost : 0 < l.lost_counter → b.text ≡ []
  pub stream : l.accepted ≡ joined l.written ++ pending b l

-- The parts of a logger that only the writing thread and the destructor change.
pub record Beside (l l' : AsyncFileLogger) : Type 0 where
  pub tmp : l'.tmp_buffers ≡ l.tmp_buffers
  pub thread : l'.thread ≡ l.thread
  pub stop : l'.stop_flag ≡ l.stop_flag
  pub written : l'.written ≡ l.written

-- The buffers are moved, and no text is taken or lost.
pub record Moved (l l' : AsyncFileLogger) : Type 0 where
  pub accepted : l'.accepted ≡ l.accepted
  pub lost : l'.lost_counter ≡ l.lost_counter
  pub beside : Beside l l'

pub joined-append : (ts us : List (List ℕ)) → joined (ts ++ us) ≡ joined ts ++ joined us
joined-append [] us = refl
joined-append (t ∷ ts) us =
    ap (λ r. t ++ r) (joined-append ts us) ∙ sym (append_assoc t (joined ts) (joined us))

pub texts-append : (bs cs : List Buffer) → texts (bs ++ cs) ≡ texts bs ++ texts cs
texts-append [] cs = refl
texts-append (b ∷ bs) cs = ap (λ r. b.text ∷ r) (texts-append bs cs)

-- What follows is run on the buffer that is there.
pub bound {ℓ ℓ'} :
    {A : Type ℓ} {B : Type ℓ'} {o : Option A} {a : A} (k : A → Option B)
    → o ≡ some a
    → (o >>= k) ≡ k a
bound k e = ap (λ o. o >>= k) e

pub AllFit-append : (bs : List Buffer) (b : Buffer) → AllFit bs → Fits b → AllFit (bs ++ (b ∷ []))
AllFit-append [] b all f = (f, tt)
AllFit-append (c ∷ bs) b (g, all) f = (g, AllFit-append bs b all f)

-- The bytes of one more buffer at the end.
pub joined-last :
    (bs : List Buffer) (b : Buffer) → joined (texts (bs ++ (b ∷ []))) ≡ joined (texts bs) ++ b.text
joined-last bs b =
    ap joined (texts-append bs (b ∷ []))
    ∙ joined-append (texts bs) (b.text ∷ [])
    ∙ ap (λ r. joined (texts bs) ++ r) (append-nil b.text)

pub cleared-Fits : (b : Buffer) → Fits b → Fits (cleared b)
cleared-Fits b f = record { within = omega arith; big = f.big }
