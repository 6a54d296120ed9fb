-- ===== src/Raft/Leader/Reads.antt =====
-- Linearizable reads: how many acknowledgements release one.
use mathlib.Core.Path.{subst}
use yukino_go.Base.{
  ℕ, suc, ◌≤◌, ◌≡◌, refl, ap, arith, Option, none, some, List, [], ◌∷◌, length, nat_beq, lookup,
  insert, bytes_eq, bytes_beq, nat_eq, lookup-insert, true, inl, inr, Bool-cases, sym, nat_beq_iff,
  ok, ◌∙◌, ◌>>=◌, All,
}
use yukino_go.Raft.Model.{Message}
use yukino_go.Raft.ReadOnly.{ReadIndexStatus, ReadOnly, recv_ack}
use yukino_go.Raft.Storage.{R}
use yukino_go.Raft.State.{Raft, quorum}
use yukino_go.Raft.Leader.{on_heartbeat_resp}

-- The only node that has acknowledged is `p`.
abbrev pub OnlyFrom : ℕ → List (ℕ × Unit {0}) → Type 0
OnlyFrom p [] = Unit {0}
OnlyFrom p ((q, _) ∷ rest) = (q ≡ p) × (length rest ≡ 0)

insert-OnlyFrom :
    (p : ℕ) (acks : List (ℕ × Unit {0}))
    → OnlyFrom p acks
    → (length (insert p tt acks) ≡ 1) × OnlyFrom p (insert p tt acks)
insert-OnlyFrom p [] h = (refl, (refl, refl))
insert-OnlyFrom p ((q, u) ∷ rest) h =
    let e : nat_beq q p ≡ true = (nat_beq_iff q p).1 h.0 in rw e (ap suc h.1, (refl, h.1))

abbrev pub acks_of : Option ReadIndexStatus → List (ℕ × Unit {0})
acks_of none = []
acks_of (some rs) = rs.acks

-- The only node that has acknowledged a read is `p`.
abbrev pub AllFrom : ℕ → ReadOnly → Type 0
AllFrom p ro = (ctx : List ℕ) → OnlyFrom p (acks_of (lookup ctx ro.pending_read_index))

-- The acknowledgement is noted, and nothing else changes.
record AckedOnce (ro : ReadOnly) (ctx : List ℕ) (p : ℕ) : Type 0 where
  few : length (recv_ack ro ctx p).1 ≤ 1
  queue : (recv_ack ro ctx p).0.read_index_queue ≡ ro.read_index_queue
  only : AllFrom p (recv_ack ro ctx p).0

recv_ack-AckedOnce :
    (ro : ReadOnly) (ctx : List ℕ) (p : ℕ) (o : Option ReadIndexStatus)
    → lookup ctx ro.pending_read_index ≡ o
    → AllFrom p ro
    → AckedOnce ro ctx p
unfolding recv_ack
recv_ack-AckedOnce ro ctx p none e k =
    let s : recv_ack ro ctx p ≡ (ro, []) = rw (e, recv_ack) refl in
    record {
      few = ground (arith, s);
      queue = ground (arith, s);
      only = subst (λ x. AllFrom p x.0) (sym s) k;
    }
recv_ack-AckedOnce ro ctx p (some rs) e k =
    let acks = insert p tt rs.acks in
    let rs' : ReadIndexStatus = record rs { acks = acks } in
    let p' = insert ctx rs' ro.pending_read_index in
    let s : recv_ack ro ctx p ≡ (record ro { pending_read_index = p' }, acks) =
      rw (e, recv_ack) refl in
    let only_here = insert-OnlyFrom p rs.acks (rw e at (k ctx)) in
    let only : AllFrom p (record ro { pending_read_index = p' }) = λ other.
      elim (Bool-cases (bytes_beq ctx other)) [
        | inl same ↦
            let f : lookup other p' ≡ some rs' =
              lookup-insert ctx other rs' ro.pending_read_index ∙ rw same refl in
            rw f only_here.1
        | inr apart ↦
            let f : lookup other p' ≡ lookup other ro.pending_read_index =
              lookup-insert ctx other rs' ro.pending_read_index ∙ rw apart refl in
            rw f (k other)
      ] in
    record {
      few = subst (λ x. length x.1 ≤ 1) (sym s) (omega (arith, only_here.0));
      queue = ap (λ x. x.0.read_index_queue) s;
      only = subst (λ x. AllFrom p x.0) (sym s) only;
    }

one_response-waits :
    (m : Message) (r : Raft)
    → 2 ≤ length r.prs
    → AllFrom m.sender r.read_only
    → (ro : ReadOnly) × (on_heartbeat_resp m r ≡ ok (record r { read_only = ro }))
      × (ro.read_index_queue ≡ r.read_only.read_index_queue)
      × AllFrom m.sender ro
unfolding on_heartbeat_resp quorum
one_response-waits m r h k =
    let a =
      recv_ack-AckedOnce r.read_only m.context m.sender
        (lookup m.context r.read_only.pending_read_index) refl k in
    elim (Bool-cases (nat_beq (length r.read_only.read_index_queue) 0)) [
      | inl empty ↦ (r.read_only, rw empty refl, refl, k)
      | inr waiting ↦ (
        (recv_ack r.read_only m.context m.sender).0,
        rw waiting (ground (arith, a.few)),
        a.queue,
        a.only,
      )
    ]

-- The leader handles these heartbeat responses.
abbrev pub heartbeat_resps : List Message → Raft → R Raft
heartbeat_resps [] r = ok r
heartbeat_resps (m ∷ ms) r = on_heartbeat_resp m r >>= λ r'. heartbeat_resps ms r'

-- In a cluster of two members or more, however many heartbeat responses of one node the leader
-- handles, and whatever their contexts, if no other node has acknowledged a waiting read then no read
-- is released: all that were in the queue stay there, and nothing but the acknowledgements changes.
pub on_heartbeat_resp-waits :
    (p : ℕ) (ms : List Message) (r : Raft)
    → All (λ m. m.sender ≡ p) ms
    → 2 ≤ length r.prs
    → AllFrom p r.read_only
    → (ro : ReadOnly) × (heartbeat_resps ms r ≡ ok (record r { read_only = ro }))
      × (ro.read_index_queue ≡ r.read_only.read_index_queue)
      × AllFrom p ro
on_heartbeat_resp-waits p [] r from h k = (r.read_only, refl, refl, k)
on_heartbeat_resp-waits p (m ∷ ms) r (one, from) h k =
    let (ro, e, same, k') =
      one_response-waits m r h (subst (λ q. AllFrom q r.read_only) (sym one) k) in
    let (ro', e', same', k'') =
      on_heartbeat_resp-waits p ms (record r { read_only = ro }) from h
        (subst (λ q. AllFrom q ro) one k') in
    (ro', rw e e', same' ∙ same, k'')
