-- ===== src/TcpConnection/Life/Loud.antt =====
-- The callbacks to the user and to the owner in the log, and the calls that make none of them.
use trantor.Prelude.{
  ◌≡◌, ◌⊎◌, inl, refl, ap, subst, ◌∙◌, Option, some, none, List, [], ◌∷◌, ◌++◌, append-nil, arith,
  Bool, true, false, if◌then◌else◌, ◌>>=◌,
}
use trantor.TcpConnection.{
  Conn, connected, disconnecting, Event, high_water, extend_life, shut_write, connection_callback,
  close_callback, log,
}

abbrev pub loud : List Event → List Event
loud [] = []
loud (high_water n ∷ es) = loud es
loud (extend_life ∷ es) = loud es
loud (shut_write ∷ es) = loud es
loud (connection_callback ∷ es) = connection_callback ∷ loud es
loud (close_callback ∷ es) = close_callback ∷ loud es

pub loud-append : (xs ys : List Event) → loud (xs ++ ys) ≡ loud xs ++ loud ys
loud-append [] ys = refl
loud-append (high_water n ∷ xs) ys = loud-append xs ys
loud-append (extend_life ∷ xs) ys = loud-append xs ys
loud-append (shut_write ∷ xs) ys = loud-append xs ys
loud-append (connection_callback ∷ xs) ys = ap (λ es. connection_callback ∷ es) (loud-append xs ys)
loud-append (close_callback ∷ xs) ys = ap (λ es. close_callback ∷ es) (loud-append xs ys)

some-injective : {A : Type 0} {a b : A} → some a ≡ some b → a ≡ b
some-injective e = cc

-- No callback to the user or the owner, the same interest in reading, and no other change of the
-- status than the one of `shutdown`.
pub record Quiet (c c' : Conn) : Type 0 where
  pub heard : loud c'.events ≡ loud c.events
  pub reading : c'.reading ≡ c.reading
  pub state : (c'.status ≡ c.status) ⊎ (c.status ≡ connected) × (c'.status ≡ disconnecting)

pub Quiet-keep :
    (c c' : Conn)
    → c'.events ≡ c.events
    → c'.reading ≡ c.reading
    → c'.status ≡ c.status
    → Quiet c c'
Quiet-keep c c' events reading state = record {
  heard = ap loud events;
  reading = reading;
  state = inl state;
}

pub Quiet-refl : (c : Conn) → Quiet c c
Quiet-refl c = Quiet-keep c c refl refl refl

pub Quiet-trans : {c d e : Conn} → Quiet c d → Quiet d e → Quiet c e
Quiet-trans {c} {d} {e} p q = record {
  heard = q.heard ∙ p.heard;
  reading = q.reading ∙ p.reading;
  state = (let first = p.state in let second = q.state in ground arith);
}

pub log-Quiet : (e : Event) (c : Conn) → loud (e ∷ []) ≡ [] → Quiet c (log e c)
unfolding log
log-Quiet e c h = record {
  heard =
      loud-append c.events (e ∷ []) ∙ ap (λ es. loud c.events ++ es) h ∙ append-nil (loud c.events);
  reading = refl;
  state = inl refl;
}

-- Each result is quiet.
pub record Quietly {A : Type 0} (f : A → Conn) (c : Conn) (o : Option A) : Type 0 where
  pub each : (a : A) → o ≡ some a → Quiet c (f a)

pub Quietly-none : {A : Type 0} (f : A → Conn) (c : Conn) → Quietly f c none
Quietly-none f c = record { each = λ a e. absurd (ground arith) }

pub Quietly-some :
    {A : Type 0} (f : A → Conn) (c : Conn) (a : A) → Quiet c (f a) → Quietly f c (some a)
Quietly-some f c a q = record { each = λ b e. subst (λ d. Quiet c (f d)) (some-injective e) q }

pub Quietly-bind :
    {A B : Type 0} (f : B → Conn) (c : Conn) {o : Option A} {next : A → Option B}
    → ((a : A) → o ≡ some a → Quietly f c (next a))
    → Quietly f c (o >>= next)
Quietly-bind f c {o = none} h = Quietly-none f c
Quietly-bind f c {o = some a} h = h a refl

pub Quietly-if :
    {A : Type 0} (f : A → Conn) (c : Conn) (b : Bool) {o p : Option A}
    → Quietly f c o
    → Quietly f c p
    → Quietly f c (if b then o else p)
Quietly-if f c true p q = p
Quietly-if f c false p q = q

pub Quietly-case :
    {A : Type 0} (f : A → Conn) (c : Conn) (b : Bool) {o p : Option A}
    → Quietly f c o
    → Quietly f c p
    → Quietly f c (elim b [ true ↦ o | false ↦ p ])
Quietly-case f c true p q = p
Quietly-case f c false p q = q

pub Quietly-from :
    {A : Type 0} (f : A → Conn) {c d : Conn} {o : Option A}
    → Quiet c d
    → Quietly f d o
    → Quietly f c o
Quietly-from f p q = record { each = λ a e. Quiet-trans p (q.each a e) }
