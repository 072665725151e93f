-- ===== src/Domain/State/Visible.antt =====
-- Who sees a status (`can_see`, `visible` of mastomini_rs/src/domain/query.rs), the thread above it
-- (mastomini_rs/src/domain/moderation.rs), and who is notified (mastomini_rs/src/domain/mod.rs).
use mastomini.Prelude.{
  ℕ, zero, suc, Bool, true, false, Option, none, some, List, [], ◌∷◌, ◌==◌, ◌&&◌, ◌||◌, not,
  if◌then◌else◌,
}
use mastomini.Prelude.Ord.{nat_ord, pair_ord}
use mastomini.Prelude.Map.{get}
use mastomini.Domain.State.{Visibility, has_bit, Status, MuteRec, State}
use mastomini.Domain.State.Relations.{
  keep_if, follows, blocks, blocked_either, mute, suspended, silenced,
}

-- `viewer.is_some_and(|v| v != author && self.state.blocks(author, v))`
abbrev pub is_shut_out : Option ℕ → ℕ → State → Bool
is_shut_out none author s = false
is_shut_out (some v) author s = not (v == author) && blocks author v s

-- `none` is who is not signed in, as on the pages of mastomini_rs/src/api/pages.rs.
abbrev pub admits : Option ℕ → Visibility → Status → State → Bool
admits viewer Visibility.everyone status s = true
admits viewer Visibility.unlisted status s = true
admits none Visibility.private status s = false
admits none Visibility.direct status s = false
admits (some v) Visibility.private status s =
    (v == status.rec.author) || (follows v status.rec.author s || has_bit status.mentions v)
admits (some v) Visibility.direct status s = (v == status.rec.author) || has_bit status.mentions v

unfoldable pub can_see : Option ℕ → Status → State → Bool
unfolding suspended blocks follows
can_see viewer status s =
    let author = status.rec.author in
    if suspended author s
    then false
    else if is_shut_out viewer author s
    then false
    else admits viewer status.rec.visibility status s

unfoldable pub visible : Option ℕ → ℕ → State → Option Status
unfolding can_see
visible viewer id s = keep_if (λ status. can_see viewer status s) (get id s.statuses)

abbrev pub max_thread_depth : ℕ
max_thread_depth = 40

-- The loop of `thread_chain`: at most `max_thread_depth` turns, since each one adds a status.
unfoldable pub chain_from : ℕ → Option ℕ → State → List ℕ
chain_from zero next s = []
chain_from (suc left) none s = []
chain_from (suc left) (some id) s = elim (get id s.statuses) [
  | none ↦ []
  | some status ↦ id ∷ chain_from left status.rec.in_reply_to_id s
]

unfoldable pub thread_chain : ℕ → State → List ℕ
unfolding chain_from
thread_chain status_id s = chain_from max_thread_depth (some status_id) s

abbrev pub is_muted_at : ℕ → State → ℕ → Bool
is_muted_at viewer s id = elim (get id s.statuses) [
  | none ↦ false
  | some status ↦ has_bit status.muted viewer
]

abbrev pub any : (ℕ → Bool) → List ℕ → Bool
any test [] = false
any test (x ∷ xs) = test x || any test xs

unfoldable pub thread_muted : ℕ → ℕ → State → Bool
unfolding thread_chain
thread_muted viewer status_id s = any (is_muted_at viewer s) (thread_chain status_id s)

-- `self.state.mute(to, from).is_some_and(|m| m.notifications)`
abbrev pub is_silent : Option MuteRec → Bool
is_silent none = false
is_silent (some m) = m.notifications

unfoldable pub wants_notification : ℕ → ℕ → Option ℕ → State → Bool
unfolding blocked_either suspended mute silenced follows thread_muted
wants_notification to from status s =
    if (to == from) || (blocked_either to from s || suspended from s)
    then false
    else if is_silent (mute to from s)
    then false
    else if silenced from s && not (follows to from s)
    then false
    else elim status [ none ↦ true | some id ↦ not (thread_muted to id s) ]
