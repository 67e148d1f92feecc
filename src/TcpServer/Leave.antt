-- ===== src/TcpServer/Leave.antt =====
-- A connection leaves the set and ends, and no assertion of its removal fails.
use trantor.Prelude.{
  same_or_not, update, update_same, update_other, ℕ, suc, ◌+◌, ◌<◌, ◌≡◌, ◌≢◌, inl, inr, refl, sym,
  ap, subst, ◌∙◌, true, false, ◌==◌, some, List, [], ◌∷◌, ◌++◌, arith,
}
use trantor.TcpConnection.Life.{Link}
use trantor.TcpConnection.Life.Once.{Stage}
use trantor.TcpConnection.Life.Inside.{Inside}
use trantor.TcpServer.{TcpServer, erase, handle_close_in_loop, closes, Without, destroy_one}
use trantor.TcpServer.Counts.{count, count-append, erase-count, erase-others}
use trantor.TcpServer.Moves.{can_destroy}
use trantor.TcpServer.Where.{
  calls_back, Where, unborn, alive, ended, Where-keep, count_self, count_other,
}

-- The state behind `handleCloseInLoop`.
abbrev pub erased : ℕ → List ℕ → TcpServer → TcpServer
erased i rest s = record s {
  conn_set = (erase i s.conn_set).0;
  closing = rest;
  dying = s.dying ++ (i ∷ []);
}

-- The state behind `connectDestroyed`.
abbrev pub destroyed : ℕ → List ℕ → TcpServer → TcpServer
destroyed i rest s = record s {
  links = update s.links i (record (s.links i) { in_loop = false });
  dying = rest;
}

-- A connection whose removal from the set runs.
record Leaves (s : TcpServer) (i : ℕ) (rest : List ℕ) : Type 0 where
  born : i < s.accepted
  stage : Stage true (s.links i).conn
  called : calls_back s i ≡ 1
  there : count i s.conn_set ≡ 1
  last : count i rest ≡ 0
  before : count i s.dying ≡ 0
  known : Inside (s.links i)

first_counted : (i : ℕ) (js rest : List ℕ) → Without i js rest → count i js ≡ suc (count i rest)
first_counted i js rest (before, behind, e, r) =
    let same : (i == i) ≡ true = ground arith in
    let one : count i (i ∷ behind) ≡ suc (count i behind) = rw same refl in
    let all = ap (count i) e ∙ count-append i before (i ∷ behind) in
    let left = ap (count i) r ∙ count-append i before behind in omega arith

other_counted : (i k : ℕ) (js rest : List ℕ) → k ≢ i → Without i js rest → count k js ≡ count k rest
other_counted i k js rest other (before, behind, e, r) =
    let differ : (k == i) ≡ false = ground (arith, other) in
    let skipped : count k (i ∷ behind) ≡ count k behind = rw differ refl in
    let all = ap (count k) e ∙ count-append k before (i ∷ behind) in
    let left = ap (count k) r ∙ count-append k before behind in omega arith

Where-Leaves :
    (s : TcpServer) (i : ℕ) (rest : List ℕ) → Without i s.closing rest → Where s i → Leaves s i rest
Where-Leaves s i rest e (unborn h x y z) =
    absurd (let c = first_counted i s.closing rest e in omega arith)
Where-Leaves s i rest e (alive h st n x y z k) =
    absurd (let c = first_counted i s.closing rest e in omega arith)
Where-Leaves s i rest e (ended h st n x y k) =
    let c = first_counted i s.closing rest e in
    record {
      born = h;
      stage = st;
      called = n;
      there = omega arith;
      last = omega arith;
      before = omega arith;
      known = k (omega arith);
    }

pub erases_one :
    (s : TcpServer) (i : ℕ) (rest : List ℕ)
    → Without i s.closing rest
    → Where s i
    → handle_close_in_loop i (record s { closing = rest }) ≡ some (erased i rest s)
unfolding handle_close_in_loop
erases_one s i rest e w =
    let number = (erase-count i s.conn_set).0 ∙ (Where-Leaves s i rest e w).there in rw number refl

pub erases-Where :
    (s : TcpServer) (i : ℕ) (rest : List ℕ) (k : ℕ)
    → Without i s.closing rest
    → ((j : ℕ) → Where s j)
    → Where (erased i rest s) k
erases-Where s i rest k e w = elim (same_or_not k i) [
  | inl it ↦
      (let g = Where-Leaves s i rest e (w i) in
        subst (Where (erased i rest s)) (sym it) (
          ended g.born g.stage g.called ((erase-count i s.conn_set).1 ∙ sym g.last)
            (omega (
              arith,
              (erase-count i s.conn_set).1,
              count-append i s.dying (i ∷ []),
              count_self i,
              g.before,
            ))
            (λ one. g.known)))
  | inr other ↦
      Where-keep s (erased i rest s) k refl (λ h. h) (omega arith)
        (erase-others i k s.conn_set other) (sym (other_counted i k s.closing rest other e))
        (count-append k s.dying (i ∷ [])
          ∙ ap (λ m. count k s.dying + m) (count_other k i other)
          ∙ omega arith)
        (w k)
]

-- A connection whose end runs.
record Ends (s : TcpServer) (i : ℕ) (rest : List ℕ) : Type 0 where
  born : i < s.accepted
  stage : Stage true (s.links i).conn
  called : calls_back s i ≡ 1
  gone : count i s.conn_set ≡ 0
  unqueued : count i s.closing ≡ 0
  last : count i rest ≡ 0
  known : Inside (s.links i)

Where-Ends :
    (s : TcpServer) (i : ℕ) (rest : List ℕ) → Without i s.dying rest → Where s i → Ends s i rest
Where-Ends s i rest e (unborn h x y z) =
    absurd (let c = first_counted i s.dying rest e in omega arith)
Where-Ends s i rest e (alive h st n x y z k) =
    absurd (let c = first_counted i s.dying rest e in omega arith)
Where-Ends s i rest e (ended h st n x y k) =
    let c = first_counted i s.dying rest e in
    record {
      born = h;
      stage = st;
      called = n;
      gone = omega arith;
      unqueued = omega arith;
      last = omega arith;
      known = k (omega arith);
    }

pub destroys_one :
    (s : TcpServer) (i : ℕ) (rest : List ℕ)
    → Without i s.dying rest
    → Where s i
    → destroy_one i rest s ≡ some (destroyed i rest s)
unfolding destroy_one
destroys_one s i rest e w =
    let g = Where-Ends s i rest e w in rw (can_destroy (s.links i) g.stage g.called g.known) refl

pub destroys-Where :
    (s : TcpServer) (i : ℕ) (rest : List ℕ) (k : ℕ)
    → Without i s.dying rest
    → ((j : ℕ) → Where s j)
    → Where (destroyed i rest s) k
destroys-Where s i rest k e w = elim (same_or_not k i) [
  | inl it ↦
      (let g = Where-Ends s i rest e (w i) in
        let here = update_same s.links i (record (s.links i) { in_loop = false }) in
        subst (Where (destroyed i rest s)) (sym it) (
          ended g.born (subst (λ (l : Link). Stage true l.conn) (sym here) g.stage)
            (ap (λ (l : Link). closes l.conn.events) here ∙ g.called) (g.gone ∙ sym g.unqueued)
            (omega (arith, g.gone, g.last)) (λ one. absurd (omega (arith, g.gone, g.last)))))
  | inr other ↦
      Where-keep s (destroyed i rest s) k
        (update_other s.links i (record (s.links i) { in_loop = false }) k (λ h. other (sym h)))
        (λ h. h) (omega arith) refl refl (sym (other_counted i k s.dying rest other e)) (w k)
]
