-- ===== src/Primitives/Forks/Roundtrip.antt =====
-- Names of forks (crates/primitives/src/beacon/fork.rs), written and read.
use Prim.Native.String.{String}
use rs_mev_relay.Prelude.{codes, ok, ◌≡◌, refl}
use rs_mev_relay.Primitives.Headers.{ForkName, base, altair, merge, capella, deneb}
use rs_mev_relay.Primitives.Forks.{to_lower, to_lowercase, from_str, display, try_from, into}

-- A fork's name is read as that fork, whatever the case of its letters.
pub try_from-into :
    (fork : ForkName) (s : String) → to_lowercase s ≡ codes (into fork) → try_from s ≡ ok fork
unfolding into try_from from_str display to_lower
try_from-into base s same = rw (same, from_str) refl
try_from-into altair s same = rw (same, from_str) refl
try_from-into merge s same = rw (same, from_str) refl
try_from-into capella s same = rw (same, from_str) refl
try_from-into deneb s same = rw (same, from_str) refl
