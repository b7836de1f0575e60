-- ===== src/Pallet/Xcm/Delivery.antt =====
-- Messages of pallets/privacy-pool/src/xcm_handler.rs from one chain to another.
use sl.Prelude.{ℕ, ◌≡◌, refl, none, some, [], ◌∷◌, Text, false, nat_beq}
use sl.Pallet.Xcm.{
  PrivacyXcmMessage, sync_epoch_root, verify_nullifier, store_remote_epoch_root,
  check_nullifier_and_respond, Codec, action_of, encode_for_xcm, decode_from_xcm,
  build_sync_epoch_root_xcm, build_verify_nullifier_xcm, process_incoming,
}

-- The documentation of SCALE: what is encoded decodes to itself.
abbrev pub IsCodec : Codec → Type 0
IsCodec codec = (m : PrivacyXcmMessage) → codec.decode (codec.encode m) ≡ some m

module _ (codec : Codec) (law : IsCodec codec) where
  -- With a codec that decodes what it encodes, every message that is sent gives its action when it
  -- arrives; the built messages give the storing of the root and the check of the nullifier; and bytes
  -- that are empty or begin with another byte than the magic one give none.
  pub process_incoming-encode :
      ((m : PrivacyXcmMessage)
        → process_incoming codec (encode_for_xcm codec m) ≡ some (action_of m))
      × ((target source id : ℕ) (root : Text) (count : ℕ)
          → process_incoming codec (build_sync_epoch_root_xcm codec target source id root count)
            ≡ some (store_remote_epoch_root source id root count))
      × ((para : ℕ) (n : Text) (nonce : ℕ)
          → process_incoming codec (build_verify_nullifier_xcm codec para n nonce)
            ≡ some (check_nullifier_and_respond para n nonce))
      × (process_incoming codec [] ≡ none)
      × ((b : ℕ) (rest : Text) → nat_beq b 0x50 ≡ false → process_incoming codec (b ∷ rest) ≡ none)
  unfolding process_incoming encode_for_xcm decode_from_xcm build_sync_epoch_root_xcm
      build_verify_nullifier_xcm action_of
  process_incoming-encode = (
    λ m. rw (law m) refl,
    λ target source id root count. rw (law (sync_epoch_root source id root count)) refl,
    λ para n nonce. rw (law (verify_nullifier para n nonce)) refl,
    refl,
    λ b rest other. rw (process_incoming, decode_from_xcm, other) refl,
  )
