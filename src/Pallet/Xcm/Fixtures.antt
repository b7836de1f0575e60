-- ===== src/Pallet/Xcm/Fixtures.antt =====
-- A stand-in for the SCALE codec of the messages in pallets/privacy-pool/src/xcm_handler.rs: numbers are
-- single entries, and the text of a message comes last.
use sl.Prelude.{refl, true, false, Option, none, some, ◌∷◌, Text, nat_beq, if◌then◌else◌}
use sl.Pallet.Xcm.{
  PrivacyXcmMessage, sync_epoch_root, verify_nullifier, nullifier_status, register_chain, Codec,
}
use sl.Pallet.Xcm.Delivery.{IsCodec}

abbrev pub flat_encode : PrivacyXcmMessage → Text
flat_encode (sync_epoch_root p e r c) = 0 ∷ p ∷ e ∷ c ∷ r
flat_encode (verify_nullifier p n k) = 1 ∷ p ∷ k ∷ 0 ∷ n
flat_encode (nullifier_status p n true k) = 2 ∷ p ∷ k ∷ 0 ∷ n
flat_encode (nullifier_status p n false k) = 3 ∷ p ∷ k ∷ 0 ∷ n
flat_encode (register_chain p a h) = 4 ∷ p ∷ a ∷ 0 ∷ h

abbrev pub flat_decode : Text → Option PrivacyXcmMessage
flat_decode (tag ∷ x ∷ y ∷ z ∷ rest) =
    if nat_beq tag 0
    then some (sync_epoch_root x y rest z)
    else if nat_beq tag 1
    then some (verify_nullifier x rest y)
    else if nat_beq tag 2
    then some (nullifier_status x rest true y)
    else if nat_beq tag 3
    then some (nullifier_status x rest false y)
    else some (register_chain x y rest)
flat_decode short = none

abbrev pub flat : Codec
flat = record { encode = flat_encode; decode = flat_decode }

pub flat-IsCodec : IsCodec flat
flat-IsCodec (sync_epoch_root p e r c) = refl
flat-IsCodec (verify_nullifier p n k) = refl
flat-IsCodec (nullifier_status p n true k) = refl
flat-IsCodec (nullifier_status p n false k) = refl
flat-IsCodec (register_chain p a h) = refl
