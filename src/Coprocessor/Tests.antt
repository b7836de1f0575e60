-- ===== src/Coprocessor/Tests.antt =====
-- The envelope theorem at a concrete input.
use sl.Prelude.{ℕ, zero, suc, ◌%◌, ◌≡◌, refl, ap, [], ◌∷◌, Text, arith, length, take, drop}
use sl.CosmWasm.Fixtures.{repeat}
use sl.CosmWasm.Poseidon.{from_be_bytes}
use sl.Coprocessor.{Crates, padded_proof_envelope}
use sl.Coprocessor.Envelope.{IsRandom, padded_proof_envelope_lem}

length-repeat : (n c : ℕ) → length (repeat n c) ≡ n
length-repeat zero c = refl
length-repeat (suc n) c = ap suc (length-repeat n c)

abbrev toy : Crates
toy = record {
  hash_bytes_be = λ elements. repeat 32 7;
  fill_bytes = λ draw n. repeat n (draw % 256);
}

abbrev toy_body : Text
toy_body = 5 ∷ 6 ∷ []

toy-IsRandom : IsRandom toy
toy-IsRandom = record { filled = λ draw n. length-repeat n (draw % 256) }

padded_proof_envelope_lem_example :
    let envelope = padded_proof_envelope toy 3 toy_body 16 in
    (length envelope ≡ 16)
    × (from_be_bytes 0 (take 4 envelope) ≡ 2)
    × (take 2 (drop 4 envelope) ≡ toy_body)
padded_proof_envelope_lem_example =
    padded_proof_envelope_lem toy 3 toy_body 16 toy-IsRandom (omega arith) (omega arith)
