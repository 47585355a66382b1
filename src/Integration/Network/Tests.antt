-- ===== src/Integration/Network/Tests.antt =====
-- A subscription that receives two batches of events.
use academic_verification.Prelude.{false, List, [], ◌∷◌, ◌≡◌, refl}
use academic_verification.Integration.Network.{
  ChainEvent, Subscription, Happening, opened, received, happen, subscribe_to_events,
}

abbrev issued : ChainEvent
issued = record { section = "credential"; method = "CredentialIssued"; payload = "0x01" }

abbrev other : ChainEvent
other = record { section = "did"; method = "DIDCreated"; payload = "5Stu" }

abbrev history : List Happening
history = received (other ∷ []) ∷ (opened ∷ (received (issued ∷ (other ∷ [])) ∷ []))

abbrev quiet : Subscription
quiet = record { delivered = []; is_open = false; asked = false; ended = false }

one_issued :
    (subscribe_to_events "credential" "CredentialIssued" history quiet).delivered ≡ issued ∷ []
unfolding subscribe_to_events happen
one_issued = refl
