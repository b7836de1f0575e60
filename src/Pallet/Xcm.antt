-- ===== src/Pallet/Xcm.antt =====
-- pallets/privacy-pool/src/xcm_handler.rs, with the SCALE codec of a message as a parameter.
pub mod Delivery
pub mod Fixtures
use sl.Prelude.{
  ℕ, Bool, Option, none, some, List, [], ◌∷◌, Text, nat_beq, ◌≡◌, refl, if◌then◌else◌, ◌++◌,
}

pub data PrivacyXcmMessage : Type 0 where
  sync_epoch_root :
      (source_para_id epoch_id : ℕ)
      → (nullifier_root : Text) → (nullifier_count : ℕ) → PrivacyXcmMessage
  verify_nullifier :
      (requester_para_id : ℕ) → (nullifier : Text) → (request_nonce : ℕ) → PrivacyXcmMessage
  nullifier_status :
      (responder_para_id : ℕ)
      → (nullifier : Text) → (spent : Bool) → (request_nonce : ℕ) → PrivacyXcmMessage
  register_chain : (para_id app_id : ℕ) → (config_hash : Text) → PrivacyXcmMessage

pub data PrivacyXcmAction : Type 0 where
  store_remote_epoch_root :
      (source_para_id epoch_id : ℕ)
      → (nullifier_root : Text) → (nullifier_count : ℕ) → PrivacyXcmAction
  check_nullifier_and_respond :
      (requester_para_id : ℕ) → (nullifier : Text) → (request_nonce : ℕ) → PrivacyXcmAction
  process_nullifier_response :
      (responder_para_id : ℕ)
      → (nullifier : Text) → (spent : Bool) → (request_nonce : ℕ) → PrivacyXcmAction
  register_remote_chain : (para_id app_id : ℕ) → (config_hash : Text) → PrivacyXcmAction

-- `Encode::encode` and `Decode::decode`.
pub record Codec : Type 0 where
  pub encode : PrivacyXcmMessage → Text
  pub decode : Text → Option PrivacyXcmMessage

-- 'P'
abbrev pub magic : ℕ
magic = 0x50

unfoldable pub action_of : PrivacyXcmMessage → PrivacyXcmAction
action_of (sync_epoch_root p e r c) = store_remote_epoch_root p e r c
action_of (verify_nullifier p n k) = check_nullifier_and_respond p n k
action_of (nullifier_status p n b k) = process_nullifier_response p n b k
action_of (register_chain p a h) = register_remote_chain p a h

module _ (codec : Codec) where
  unfoldable pub encode_for_xcm : PrivacyXcmMessage → Text
  encode_for_xcm msg = magic ∷ codec.encode msg

  unfoldable pub decode_from_xcm : Text → Option PrivacyXcmMessage
  decode_from_xcm [] = none
  decode_from_xcm (b ∷ rest) = if nat_beq b magic then codec.decode rest else none

  unfoldable pub build_sync_epoch_root_xcm : (target source epoch_id : ℕ) → Text → ℕ → Text
  unfolding encode_for_xcm
  build_sync_epoch_root_xcm target_para_id source_para_id epoch_id nullifier_root nullifier_count =
      encode_for_xcm (sync_epoch_root source_para_id epoch_id nullifier_root nullifier_count)

  unfoldable pub build_verify_nullifier_xcm : ℕ → Text → ℕ → Text
  unfolding encode_for_xcm
  build_verify_nullifier_xcm requester_para_id nullifier nonce =
      encode_for_xcm (verify_nullifier requester_para_id nullifier nonce)

  unfoldable pub process_incoming : Text → Option PrivacyXcmAction
  unfolding decode_from_xcm action_of
  process_incoming bytes = elim (decode_from_xcm bytes) [
    | none ↦ none
    | some msg ↦ some (action_of msg)
  ]
