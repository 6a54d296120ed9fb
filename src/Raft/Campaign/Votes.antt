-- ===== src/Raft/Campaign/Votes.antt =====
-- Who becomes leader, and what vote requests say.
use mathlib.Core.List.{append_assoc, append-nil}
use yukino_go.Base.{
  ℕ, suc, ◌-◌, ◌<◌, ◌≡◌, ◌≢◌, inl, inr, refl, ap, sym, ◌∙◌, arith, Bool, true, false, Bool-cases,
  not, ◌||◌, Option, Option-cases, none, some, List, [], ◌∷◌, ◌++◌, map, length, nat_beq,
  nat_beq_iff, lookup, insert, lookup-insert, nat_eq, add64, if◌then◌else◌, count_if, ok, must,
  ◌>>=◌, All,
}
use yukino_go.Raft.Model.{
  Message, state_beq, state_candidate, state_leader, state_pre_candidate, campaign_pre_election,
  msg_pre_vote, blank,
}
use yukino_go.Raft.Progress.{Progress}
use yukino_go.Raft.Log.{RaftLog, last_term, log_term}
use yukino_go.Raft.Log.View.{stop, IsValid, term_at}
use yukino_go.Raft.Log.Terms.{last_index-eq, log_term-eq}
use yukino_go.Raft.State.{Raft, become_follower, send, quorum, poll, step_candidate, tick_election}
use yukino_go.Raft.Leader.{for_peers}
use yukino_go.Raft.Campaign.{become_pre_candidate, request_vote, campaign, on_vote_resp}

-- Whether a node is the candidate or has answered. The newest answer stands first.
abbrev pub has_answered : ℕ → List Message → ℕ → Bool
has_answered self [] id = nat_beq self id
has_answered self (m ∷ earlier) id = nat_beq m.sender id || has_answered self earlier id

-- The nodes whose first answer is a grant, and the candidate.
abbrev pub granters : ℕ → List Message → List ℕ
granters self [] = self ∷ []
granters self (m ∷ earlier) =
    let others = granters self earlier in
    if has_answered self earlier m.sender
    then others
    else if m.reject
    then others
    else m.sender ∷ others

-- A candidate with its own vote, which has handled these answers, and is still a candidate.
pub data Counting (self : ℕ) : List Message → Raft → Type 0 where
  starts : (r : Raft) → r.votes ≡ (self, true) ∷ [] → Counting self [] r
  counts :
      (earlier : List Message) (m : Message) (r r' : Raft)
      → Counting self earlier r
      → length (granters self (m ∷ earlier)) ≢ quorum r
      → on_vote_resp m r ≡ ok r'
      → r'.state ≡ state_candidate
      → Counting self (m ∷ earlier) r'

abbrev is_some : Option Bool → Bool
is_some none = false
is_some (some b) = true

record IsTally (self : ℕ) (answers : List Message) (votes : List (ℕ × Bool)) : Type 0 where
  known : (id : ℕ) → is_some (lookup id votes) ≡ has_answered self answers id
  count : count_if (λ p. p.1) votes ≡ length (granters self answers)

count_if-insert :
    (id : ℕ) (v : Bool) (votes : List (ℕ × Bool))
    → lookup id votes ≡ none
    → count_if (λ p. p.1) (insert id v votes)
      ≡ (if v then suc (count_if (λ p. p.1) votes) else count_if (λ p. p.1) votes)
count_if-insert id v [] h = refl
count_if-insert id v ((other, w) ∷ votes) h = elim (Bool-cases (nat_beq other id)) [
  | inl same ↦ let bad : some w ≡ none = rw same at h in cc
  | inr apart ↦
      let rest = count_if-insert id v votes (rw apart at h) in rw (apart, rest) (ground arith)
]

poll-absent :
    (id : ℕ) (v : Bool) (r : Raft)
    → lookup id r.votes ≡ none
    → poll id v r
      ≡ (record r { votes = insert id v r.votes }, count_if (λ p. p.1) (insert id v r.votes))
unfolding poll
poll-absent id v r e = rw e refl

poll-again :
    (id : ℕ) (v w : Bool) (r : Raft)
    → lookup id r.votes ≡ some w
    → poll id v r ≡ (r, count_if (λ (p : ℕ × Bool). p.1) r.votes)
unfolding poll
poll-again id v w r e = rw e refl

-- A vote is counted once.
poll-IsTally :
    (self : ℕ) (m : Message) (earlier : List Message) (r : Raft)
    → IsTally self earlier r.votes
    → IsTally self (m ∷ earlier) (poll m.sender (not m.reject) r).0.votes
      × ((poll m.sender (not m.reject) r).1 ≡ length (granters self (m ∷ earlier)))
poll-IsTally self m earlier r t = elim (Option-cases (lookup m.sender r.votes)) [
  | inl absent ↦
      let first : has_answered self earlier m.sender ≡ false =
        sym (t.known m.sender) ∙ ap is_some absent in
      let count = count_if-insert m.sender (not m.reject) r.votes absent in
      let total : count_if (λ p. p.1) (insert m.sender (not m.reject) r.votes)
          ≡ length (granters self (m ∷ earlier)) =
        count ∙ ground (arith, t.count, first) in
      let known : (id : ℕ)
          → is_some (lookup id (insert m.sender (not m.reject) r.votes))
            ≡ has_answered self (m ∷ earlier) id =
        λ id.
          ap is_some (lookup-insert m.sender id (not m.reject) r.votes)
          ∙ ground (arith, t.known id) in
      rw (poll-absent m.sender (not m.reject) r absent)
        (record { known = known; count = total }, total)
  | inr (b, there) ↦
      let again : has_answered self earlier m.sender ≡ true =
        sym (t.known m.sender) ∙ ap is_some there in
      let total : count_if (λ p. p.1) r.votes ≡ length (granters self (m ∷ earlier)) =
        rw again t.count in
      let known : (id : ℕ) → is_some (lookup id r.votes) ≡ has_answered self (m ∷ earlier) id =
        λ id. elim (Bool-cases (nat_beq m.sender id)) [
          | inl same ↦
              let e = (nat_beq_iff m.sender id).0 same in rw (same, ← e) (t.known m.sender ∙ again)
          | inr other ↦ rw other (t.known id)
        ] in
      rw (poll-again m.sender (not m.reject) b r there)
        (record { known = known; count = total }, total)
]

on_vote_resp-candidate :
    (m : Message) (r r' : Raft)
    → (poll m.sender (not m.reject) r).1 ≢ quorum r
    → on_vote_resp m r ≡ ok r'
    → r'.state ≡ state_candidate
    → r'.votes ≡ (poll m.sender (not m.reject) r).0.votes
unfolding on_vote_resp poll quorum become_follower
on_vote_resp-candidate m r r' few h s = ground arith

Counting-IsTally :
    (self : ℕ) (answers : List Message) (r : Raft)
    → Counting self answers r
    → IsTally self answers r.votes
Counting-IsTally self answers r (starts r' e) =
    rw e (record { known = λ id. ground arith; count = refl })
Counting-IsTally self answers r (counts earlier m q r' c few h s) =
    let (t, n) = poll-IsTally self m earlier q (Counting-IsTally self earlier q c) in
    let votes = on_vote_resp-candidate m q r' (λ e. few (sym n ∙ e)) h s in rw votes t

on_vote_resp-leader :
    (m : Message) (r r' : Raft)
    → r.state ≡ state_candidate
    → on_vote_resp m r ≡ ok r'
    → r'.state ≡ state_leader
    → (poll m.sender (not m.reject) r).1 ≡ quorum r
unfolding on_vote_resp poll quorum become_follower
on_vote_resp-leader m r r' c h s = ground arith

-- A candidate that began with its own vote, and that an answer makes leader before a quorum had
-- granted, has the grants of a quorum: as many nodes, the candidate among them, gave a grant as their
-- first answer.
pub leader_needs_quorum :
    (self : ℕ) (earlier : List Message) (m : Message) (r r' : Raft)
    → Counting self earlier r
    → r.state ≡ state_candidate
    → on_vote_resp m r ≡ ok r'
    → r'.state ≡ state_leader
    → length (granters self (m ∷ earlier)) ≡ quorum r
leader_needs_quorum self earlier m r r' c s h l =
    sym (poll-IsTally self m earlier r (Counting-IsTally self earlier r c)).1
    ∙ on_vote_resp-leader m r r' s h l

-- The members other than a node.
abbrev pub others : ℕ → List (ℕ × Progress) → List ℕ
others self [] = []
others self ((id, pr) ∷ rest) = if nat_beq id self then others self rest else id ∷ others self rest

-- A request for a pre-vote from a node with this term and log.
abbrev pub IsRequest : Raft → Message → Type 0
IsRequest r m =
    (m.type ≡ msg_pre_vote)
    × (m.term ≡ r.term)
    × (m.sender ≡ r.id)
    × (m.log_index ≡ stop r.raft_log - 1)
    × (m.log_term ≡ term_at r.raft_log (stop r.raft_log - 1))

-- What was sent between two states of a node: one request to each of these nodes.
pub record HasAsked (ids : List ℕ) (r r' : Raft) : Type 0 where
  pub new : List Message
  pub msgs : r'.msgs ≡ r.msgs ++ new
  pub receivers : map (λ m. m.to) new ≡ ids
  pub each : All (IsRequest r) new

last_term-eq : (l : RaftLog) → IsValid l → last_term l ≡ ok (term_at l (stop l - 1))
unfolding last_term
last_term-eq l v =
    ap (λ last. last >>= λ i. must (log_term l i)) (last_index-eq l v)
    ∙ ap must (log_term-eq l (stop l - 1) v (omega (arith, v.base_lt)))

module _ (term id : ℕ) (r : Raft) (v : IsValid r.raft_log) where
  abbrev request : Message
  request = record blank {
    term = term;
    to = id;
    type = msg_pre_vote;
    log_term = term_at r.raft_log (stop r.raft_log - 1);
    log_index = stop r.raft_log - 1;
  }

  request_vote-eq : request_vote term msg_pre_vote id r ≡ ok (send request r)
  unfolding request_vote
  request_vote-eq = rw (last_term-eq r.raft_log v, last_index-eq r.raft_log v) refl

for_peers-HasAsked :
    (term : ℕ) (peers : List (ℕ × Progress)) (r : Raft)
    → IsValid r.raft_log
    → (r' : Raft) × (for_peers (request_vote term msg_pre_vote) peers r ≡ ok r')
      × HasAsked (others r.id peers) r r'
unfolding for_peers send
for_peers-HasAsked term [] r v =
    (r, refl, record { new = []; msgs = sym (append-nil r.msgs); receivers = refl; each = tt })
for_peers-HasAsked term ((id, pr) ∷ peers) r v = elim (Bool-cases (nat_beq id r.id)) [
  | inl self ↦ let (r', e, h) = for_peers-HasAsked term peers r v in (r', rw self e, rw self h)
  | inr other ↦
      let s = send (request term id r v) r in
      let (r', e, h) = for_peers-HasAsked term peers s v in
      (
        r',
        rw (other, request_vote-eq term id r v) e,
        rw other (record {
          new = _ ∷ h.new;
          msgs = h.msgs ∙ append_assoc r.msgs (_ ∷ []) h.new;
          receivers = ap (λ xs. id ∷ xs) h.receivers;
          each = ((refl, refl, refl, refl, refl), h.each);
        }),
      )
]

-- The pre-election of a node that is not leader, with a valid log and other members, asks each other
-- member for a pre-vote once, with its last index and that entry's term, in the node's current term,
-- and not in the next one that `campaign` writes into its messages: `send` overwrites the term.
pub pre_vote_terms :
    (r : Raft)
    → 1 < quorum r
    → state_beq r.state state_leader ≡ false
    → IsValid r.raft_log
    → (r' : Raft) × (campaign campaign_pre_election r ≡ ok r') × HasAsked (others r.id r.prs) r r'
unfolding campaign become_pre_candidate poll quorum
pre_vote_terms r q follows v =
    let s : Raft = record r {
      step = step_candidate;
      tick = tick_election;
      votes = (r.id, true) ∷ [];
      state = state_pre_candidate;
    } in
    let (r', e, h) = for_peers-HasAsked (add64 r.term 1) r.prs s v in
    let few : nat_beq (quorum r) 1 ≡ false = ground arith in
    (
      r',
      rw (follows, few) e,
      record { new = h.new; msgs = h.msgs; receivers = h.receivers; each = h.each },
    )
