-- ===== src/Service/Epochs.antt =====
-- When bin/relay/src/service.rs refreshes the duties, and for which epochs.
use rs_mev_relay.Prelude.{ℕ, ◌+◌, ◌%◌, ◌<◌, ◌≤◌, ◌≡◌, ◌⊎◌, inl, inr, some, false, arith, dec_lt}
use rs_mev_relay.Primitives.Chain.{HeadSlot, is_first_slot_of_new_epoch, epoch, u64_mod}
use rs_mev_relay.Storage.{InMemoryStorage}
use rs_mev_relay.Primitives.Events.{head}
use rs_mev_relay.Service.{on_event, refresh_epochs}

refreshed_at :
    (slot : ℕ) (s : InMemoryStorage) (refreshed : HeadSlot)
    → (on_event (head slot) s).1 ≡ some refreshed
    → (refreshed.slot ≡ slot) × (slot % 32 ≡ 0)
unfolding on_event
refreshed_at slot s refreshed h = ground arith

-- A refresh is never at a slot that the helper `is_first_slot_of_new_epoch` names, at 32 slots in an
-- epoch, though its doc says that duties are refreshed there: a head event asks for a refresh at
-- the multiples of 32 only.
pub on_event-first_slot :
    (slot : ℕ) (s : InMemoryStorage) (refreshed : HeadSlot)
    → (on_event (head slot) s).1 ≡ some refreshed
    → (refreshed.slot ≡ slot) × (is_first_slot_of_new_epoch refreshed 32 ≡ false)
unfolding is_first_slot_of_new_epoch
on_event-first_slot slot s refreshed h =
    let at = refreshed_at slot s refreshed h in (at.0, ground arith)

-- The two epochs of a refresh cover every slot that is proposed for until the one after next: the
-- 64 slots from the head's.
pub refresh_epochs-cover :
    (slot t : ℕ) (s : InMemoryStorage) (refreshed : HeadSlot)
    → (on_event (head slot) s).1 ≡ some refreshed
    → slot < u64_mod
    → slot ≤ t
    → t < slot + 64
    → (epoch (record { slot = t }) 32 ≡ (refresh_epochs 32 refreshed).0)
      ⊎ (epoch (record { slot = t }) 32 ≡ (refresh_epochs 32 refreshed).1)
unfolding epoch refresh_epochs
refresh_epochs-cover slot t s refreshed h lt le below =
    let (same, aligned) = refreshed_at slot s refreshed h in
    elim (dec_lt t (slot + 32)) [ yes first ↦ inl (grind arith) | no second ↦ inr (grind arith) ]
