-- ===== src/Connection/FastFallback/Endings.antt =====
-- crates/openwire/src/connection/fast_fallback.rs: how each route of a race ends, in the plan and for the
-- listener.
use openwire.Base.{
  ℕ, zero, suc, ◌+◌, ◌<◌, ◌≡◌, refl, ◌∙◌, ap, inl, inr, Bool, true, false, not, ◌&&◌, List, [], ◌∷◌,
  All, Option, none, some, any, leb, ltb, ◌==◌, if◌then◌else◌, length, Bool-cases, arith,
}
use openwire.Connection.ConnectPlan.{ConnectAttemptState, promote_winner}
use openwire.Connection.ConnectPlan.Attempts.{
  state_at, failures, lost_to, has_ended, promote_winner-closed, promote_winner-count,
}
use openwire.Connection.FastFallback.{
  race_won, Race, emit_for, abort_others, emit_canceled_loss, emit_losses, cleanup_losers, win,
}
use openwire.Connection.FastFallback.Accounting.{endings, Accounted, attempts_of}

-- The routes reported so far are the ones before `i`.
abbrev Before : ℕ → List ℕ → Type 0
Before i routes = All (λ k. k < i) routes

Before-next : (i : ℕ) (routes : List ℕ) → Before i routes → Before (i + 1) routes
Before-next i [] b = tt
Before-next i (k ∷ routes) b = (omega (arith, b.0), Before-next i routes b.1)

Before-absent : (i : ℕ) (routes : List ℕ) → Before i routes → any (λ k. k == i) routes ≡ false
Before-absent i [] b = refl
Before-absent i (k ∷ routes) b = ground (arith, Before-absent i routes b.1, b.0)

unreported : (b : Bool) (n : ℕ) → n ≡ (if b && false then 1 else 0) + n
unreported true n = omega arith
unreported false n = omega arith

-- Reporting one route of a plan in which nothing waits or runs.
abbrev Reported : ℕ → ℕ → ℕ → Bool → Race → List ℕ × Race → Type 0
Reported winner i j lost_now race after =
    (after.1.connect_plan ≡ race.connect_plan)
    × (endings j after.1.events ≡ (if (i == j) && lost_now then 1 else 0) + endings j race.events)
    × Before (i + 1) after.0

emit_for-closed :
    (winner i j : ℕ) (s : Option ConnectAttemptState) (c : List ℕ) (race : Race)
    → has_ended s ≡ true
    → Before i c
    → Reported winner i j (lost_to winner s) race (emit_for winner i s (c, race))
unfolding emit_for endings
emit_for-closed winner i j none c race h b = (refl, unreported (i == j) _, Before-next i c b)
emit_for-closed winner i j (some ConnectAttemptState.won) c race h b =
    (refl, unreported (i == j) _, Before-next i c b)
emit_for-closed winner i j (some (ConnectAttemptState.lost w)) c race h b =
    elim (Bool-cases (w == winner)) [
      | inl e ↦ rw e (
        refl,
        elim (Bool-cases (i == j)) [ inl f ↦ rw f | inr f ↦ rw f ],
        (omega arith, Before-next i c b),
      )
      | inr e ↦ rw e (refl, unreported (i == j) _, Before-next i c b)
    ]
emit_for-closed winner i j (some (ConnectAttemptState.failed f)) c race h b =
    (refl, unreported (i == j) _, Before-next i c b)
emit_for-closed winner i j (some ConnectAttemptState.pending) c race h b = absurd (ground arith)
emit_for-closed winner i j (some ConnectAttemptState.running) c race h b = absurd (ground arith)

emit_canceled_loss-closed :
    (winner i j : ℕ) (c : List ℕ) (race : Race)
    → has_ended (state_at (attempts_of race) i) ≡ true
    → Before i c
    → Reported winner i j
        (not (i == winner) && lost_to winner (state_at (attempts_of race) i))
        race
        (emit_canceled_loss winner i (c, race))
unfolding emit_canceled_loss
emit_canceled_loss-closed winner i j c race h b = elim (Bool-cases (i == winner)) [
  | inl e ↦ rw e (refl, unreported (i == j) _, Before-next i c b)
  | inr e ↦
      rw (e, Before-absent i c b)
        (emit_for-closed winner i j (state_at (attempts_of race) i) c race h b)
]

-- Whether a route is told of by the loop over `n` routes from `i` on, as a number.
abbrev told_within : (ℕ → Bool) → ℕ → ℕ → ℕ → ℕ
told_within told i n j = if (leb i j && ltb j (i + n)) && told j then 1 else 0

tally_none : (told : ℕ → Bool) (i j z : ℕ) → z ≡ told_within told i 0 j + z
tally_none told i j z = ground arith

tally_next :
    (told : ℕ → Bool) (i n j x y z : ℕ)
    → y ≡ told_within told (i + 1) n j + x
    → x ≡ (if (i == j) && told i then 1 else 0) + z
    → y ≡ told_within told i (suc n) j + z
tally_next told i n j x y z e f = elim (Bool-cases (i == j)) [
  | inl q ↦
      let same : i ≡ j = ground arith in
      elim (Bool-cases (told j)) [
        | inl t ↦ ground (arith, same, ap told same)
        | inr t ↦ ground (arith, same, ap told same)
      ]
  | inr q ↦ elim (Bool-cases (told j)) [ inl t ↦ ground arith | inr t ↦ ground arith ]
]

abbrev loses : ℕ → Race → ℕ → Bool
loses winner race j = not (j == winner) && lost_to winner (state_at (attempts_of race) j)

-- The whole loop tells of each route from `i` on that lost to the winner, once.
emit_losses-closed :
    (winner i n j : ℕ) (c : List ℕ) (race : Race)
    → ((k : ℕ) → has_ended (state_at (attempts_of race) k) ≡ true)
    → Before i c
    → ((emit_losses winner i n (c, race)).connect_plan ≡ race.connect_plan)
      × (endings j (emit_losses winner i n (c, race)).events
          ≡ told_within (loses winner race) i n j + endings j race.events)
unfolding emit_losses
emit_losses-closed winner i zero j c race h b =
    (refl, tally_none (loses winner race) i j (endings j race.events))
emit_losses-closed winner i (suc n) j c race h b =
    let after = emit_canceled_loss winner i (c, race) in
    let (p, e, d) = emit_canceled_loss-closed winner i j c race (h i) b in
    let (q, f) =
      emit_losses-closed winner (i + 1) n j after.0 after.1
        (λ k. ap (λ x. has_ended (state_at x.attempts k)) p ∙ h k) d in
    (
      q ∙ p,
      tally_next (loses winner race) i n j (endings j after.1.events) _ (endings j race.events)
          (f
            ∙ ap
                (λ x.
                  (if (leb (i + 1) j && ltb j (i + 1 + n))
                      && (not (j == winner) && lost_to winner (state_at x.attempts j))
                    then 1
                    else 0)
                  + endings j after.1.events)
                p)
          e,
    )

told_within_all :
    (told : ℕ → Bool) (n j : ℕ) → j < n → told_within told 0 n j ≡ (if told j then 1 else 0)
told_within_all told n j h = ground arith

pub win-endings :
    (i j : ℕ) (race : Race)
    → i < length (attempts_of race)
    → failures (state_at (attempts_of race) i) ≡ 0
    → j < length (attempts_of race)
    → Accounted j race
    → endings j (win (length (attempts_of race)) i race).events ≡ 1
unfolding win cleanup_losers endings
win-endings i j race h z k (o, e) =
    let promoted : Race = record race {
      connect_plan = (promote_winner race.connect_plan i).0;
      events = race_won i ∷ race.events;
      aborted = abort_others i 0 race.aborted;
    } in
    let n = length (attempts_of race) in
    let all_told =
      (emit_losses-closed i 0 n j [] promoted (λ x. promote_winner-closed race.connect_plan i x h)
        tt).1 in
    let told = told_within_all (loses i promoted) n j k in
    elim (Bool-cases (j == i)) [
      | inl q ↦
          let same : j ≡ i = ground arith in
          let r : (i == j) ≡ true = ground arith in
          let none_yet : endings j race.events ≡ 0 =
            e ∙ ap (λ x. failures (state_at (attempts_of race) x)) same ∙ z in
          all_told ∙ rw (told, q, r) (omega (arith, none_yet))
      | inr q ↦
          let r : (i == j) ≡ false = ground arith in
          let count = promote_winner-count race.connect_plan i j h o q in
          all_told ∙ rw (told, q, r, e) (omega (arith, count))
    ]
