-- ===== src/Primitives/Separation.antt =====
-- The two signing domains of crates/primitives/src/blst/signer.rs never meet.
use rs_mev_relay.Prelude.{ℕ, ◌≡◌, ◌≢◌, arith, refl, [], ◌∷◌, length, take, ap, ◌≤◌, suc, zero}
use rs_mev_relay.Primitives.Bytes.{Bytes, B256}
use rs_mev_relay.Primitives.Headers.{SigningData}
use rs_mev_relay.Primitives.Domains.{
  ForkData, ForkDatas, compute_builder_domain, compute_proposer_domain, fork_builder_domain,
  fork_proposer_domain,
}
use rs_mev_relay.Primitives.External.{External, signing_root}

-- The fourth byte.
fourth : Bytes → ℕ
fourth (_ ∷ _ ∷ _ ∷ b ∷ _) = b
fourth _ = 0

domains-≢ :
    (root : ForkData → B256) (f g : ForkDatas)
    → compute_builder_domain root f ≢ compute_proposer_domain root g
unfolding compute_builder_domain compute_proposer_domain fork_builder_domain fork_proposer_domain
    fourth
domains-≢ root f g e = let differ : Path ℕ 1 0 = ap fourth e in omega arith

length-take : (n : ℕ) (xs : Bytes) → n ≤ length xs → length (take n xs) ≡ n
length-take zero xs le = omega arith
length-take (suc n) [] le = omega arith
length-take (suc n) (x ∷ xs) le = omega (arith, length-take n xs (omega arith))

-- Both domains of fork data are 32 bytes, where the hashes of its two parts are.
pub length-compute_domain :
    (root : ForkData → B256) (f : ForkDatas)
    → length (root f.builder).bytes ≡ 32
    → length (root f.proposer).bytes ≡ 32
    → (length (compute_builder_domain root f) ≡ 32) × (length (compute_proposer_domain root f) ≡ 32)
unfolding compute_builder_domain compute_proposer_domain fork_builder_domain fork_proposer_domain
length-compute_domain root f h k = (
  omega (arith, length-take 28 (root f.builder).bytes (omega arith)),
  omega (arith, length-take 28 (root f.proposer).bytes (omega arith)),
)

-- No signature serves in both domains but for a collision: where something that is signed in a
-- builder domain has the signing root of something that is signed in a proposer domain, there are
-- two different signing data with the same hash, of these objects, the one in the builder domain and
-- the other in the proposer domain.
pub signing_root-collides :
    (x : External) (f g : ForkDatas) (a b : B256)
    → signing_root x a (compute_builder_domain x.fork_data_root f)
      ≡ signing_root x b (compute_proposer_domain x.fork_data_root g)
    → (d e : SigningData) × (d ≢ e)
      × (x.signing_data_root d ≡ x.signing_data_root e)
      × (d.object_root ≡ a)
      × (e.object_root ≡ b)
      × (d.domain.bytes ≡ compute_builder_domain x.fork_data_root f)
      × (e.domain.bytes ≡ compute_proposer_domain x.fork_data_root g)
unfolding signing_root
signing_root-collides x f g a b same =
    let d : SigningData = record {
      object_root = a;
      domain = record { bytes = compute_builder_domain x.fork_data_root f };
    } in
    let e : SigningData = record {
      object_root = b;
      domain = record { bytes = compute_proposer_domain x.fork_data_root g };
    } in
    (
      d,
      e,
      λ p. domains-≢ x.fork_data_root f g (ap (λ (data_of : SigningData). data_of.domain.bytes) p),
      same,
      refl,
      refl,
      refl,
      refl,
    )
