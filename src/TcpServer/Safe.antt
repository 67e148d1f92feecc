-- ===== src/TcpServer/Safe.antt =====
-- What holds of a server however its loops and its connections interleave.
use trantor.Prelude.{ℕ, ◌<◌, ◌≡◌, sym, ap, subst, ◌∙◌, true, some, List, arith}
use trantor.MsgBuffer.{MsgBuffer}
use trantor.TcpConnection.{Kernel}
use trantor.TcpServer.{
  TcpServer, next_loop, new_connection, handle_close_in_loop, connection_moved, Without,
  destroy_one,
}
use trantor.TcpServer.Steps.{Empty, Step, accepts, moves, erases, destroys, Reach, start, later}
use trantor.TcpServer.Counts.{count}
use trantor.TcpServer.Keep.{connection_moved-Where}
use trantor.TcpServer.Leave.{
  erased, destroyed, erases_one, erases-Where, destroys_one, destroys-Where,
}
use trantor.TcpServer.Where.{Where, unborn, accepts-Where}

-- No assertion fails in whichever call runs next, and the loop for the next connection exists.
pub record Sound (s : TcpServer) : Type 0 where
  pub erased_once :
      (i : ℕ) (rest : List ℕ)
      → Without i s.closing rest
      → handle_close_in_loop i (record s { closing = rest }) ≡ some (erased i rest s)
  pub destroyed_well :
      (i : ℕ) (rest : List ℕ)
      → Without i s.dying rest
      → destroy_one i rest s ≡ some (destroyed i rest s)
  pub in_range : s.next_loop_idx < s.num_io_loops

record Inv (s : TcpServer) : Type 0 where
  places : (i : ℕ) → Where s i
  range : s.next_loop_idx < s.num_io_loops

next_in_range : (s : TcpServer) → s.next_loop_idx < s.num_io_loops → next_loop s < s.num_io_loops
unfolding next_loop
next_in_range s h = ground arith

some-injective : {s s' : TcpServer} → some s ≡ some s' → s ≡ s'
some-injective e = cc

Empty-Inv : (s : TcpServer) → Empty s → Inv s
Empty-Inv s (many, first, none_yet, set, closing, dying) = record {
  places = λ i. unborn (omega arith) (ap (count i) set) (ap (count i) closing) (ap (count i) dying);
  range = omega arith;
}

module _ {os : Kernel} {fuel rounds : ℕ} {recv : MsgBuffer → MsgBuffer} where
  Step-Inv : (s s' : TcpServer) → Inv s → Step true os fuel rounds recv s s' → Inv s'
  unfolding new_connection connection_moved
  Step-Inv s s' inv (accepts b mark) = record {
    places = λ k. accepts-Where b mark s k (inv.places k);
    range = next_in_range s inv.range;
  }
  Step-Inv s s' inv (moves i l born m) = record {
    places = λ k. connection_moved-Where s i l k born m inv.places;
    range = inv.range;
  }
  Step-Inv s s' inv (erases i rest e r) =
      subst Inv (some-injective (sym (erases_one s i rest e (inv.places i)) ∙ r))
        (record { places = λ k. erases-Where s i rest k e inv.places; range = inv.range })
  Step-Inv s s' inv (destroys i rest e r) =
      subst Inv (some-injective (sym (destroys_one s i rest e (inv.places i)) ∙ r))
        (record { places = λ k. destroys-Where s i rest k e inv.places; range = inv.range })

  Reach-Inv : {s : TcpServer} → Reach true os fuel rounds recv s → Inv s
  Reach-Inv {s = s} (start e) = Empty-Inv s e
  Reach-Inv {s = s} (later {s = t} r step) = Step-Inv t s (Reach-Inv r) step

  -- A server that has accepted nobody at first, its connections and its loops, `sendFile` and `sendStream`
  -- excepted, with a poller that reports a hangup with nothing left to read only without another
  -- readable event (`plain` is true). However the steps interleave, and in whatever order the calls of
  -- `handleCloseInLoop` and `connectDestroyed` run that were made: the index of the loop for the next
  -- connection is in range; each call of `handleCloseInLoop` finds its connection exactly once in the
  -- set; and each call of `connectDestroyed` finds that the poller knows the channel and that no event
  -- is waited for, so its assertions hold.
  pub Reach-Sound : {s : TcpServer} → Reach true os fuel rounds recv s → Sound s
  Reach-Sound {s = s} r =
      let inv = Reach-Inv r in
      record {
        erased_once = λ i rest e. erases_one s i rest e (inv.places i);
        destroyed_well = λ i rest e. destroys_one s i rest e (inv.places i);
        in_range = inv.range;
      }
