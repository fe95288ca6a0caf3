-- ===== src/Association/State.antt =====
-- The states of an association, in src/association/mod.rs. An `AtomicU8` that holds one is the
-- state itself here; `from_u8` is how the source reads it.
use sctp.Base.{
  ℕ, Bool, true, false, if◌then◌else◌, ◌==◌, ◌≡◌, ◌≢◌, refl, sym, ap, ◌∙◌, ==_refl, ==_iff,
  Bool-cases, inl, inr,
}

pub data AssociationState : Type 0 where
  closed cookie_wait cookie_echoed established : AssociationState
  shutdown_ack_sent shutdown_pending shutdown_received shutdown_sent : AssociationState

-- `state as u8`.
unfoldable pub as_u8 : AssociationState → ℕ
as_u8 closed = 0
as_u8 cookie_wait = 1
as_u8 cookie_echoed = 2
as_u8 established = 3
as_u8 shutdown_ack_sent = 4
as_u8 shutdown_pending = 5
as_u8 shutdown_received = 6
as_u8 shutdown_sent = 7

unfoldable pub from_u8 : ℕ → AssociationState
from_u8 v =
    if v == 1
    then cookie_wait
    else if v == 2
    then cookie_echoed
    else if v == 3
    then established
    else if v == 4
    then shutdown_ack_sent
    else if v == 5
    then shutdown_pending
    else if v == 6
    then shutdown_received
    else if v == 7
    then shutdown_sent
    else closed

-- The test `a == b` on states.
abbrev pub same_state : AssociationState → AssociationState → Bool
same_state a b = as_u8 a == as_u8 b

-- The number of a state determines it.
pub from_u8-as_u8 : (a : AssociationState) → from_u8 (as_u8 a) ≡ a
unfolding from_u8 as_u8
from_u8-as_u8 closed = refl
from_u8-as_u8 cookie_wait = refl
from_u8-as_u8 cookie_echoed = refl
from_u8-as_u8 established = refl
from_u8-as_u8 shutdown_ack_sent = refl
from_u8-as_u8 shutdown_pending = refl
from_u8-as_u8 shutdown_received = refl
from_u8-as_u8 shutdown_sent = refl

pub same_state_refl : (a : AssociationState) → same_state a a ≡ true
unfolding as_u8
same_state_refl a = ==_refl (as_u8 a)

pub same_state-true : (a b : AssociationState) → same_state a b ≡ true → a ≡ b
unfolding as_u8
same_state-true a b h =
    sym (from_u8-as_u8 a) ∙ ap from_u8 ((==_iff (as_u8 a) (as_u8 b)).0 h) ∙ from_u8-as_u8 b

pub same_state-distinct : (a b : AssociationState) → a ≢ b → same_state a b ≡ false
same_state-distinct a b h = elim (Bool-cases (same_state a b)) [
  | inl e ↦ absurd (h (same_state-true a b e))
  | inr e ↦ e
]
