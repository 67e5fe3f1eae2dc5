-- ===== src/Primitives/Forks.antt =====
-- crates/primitives/src/beacon/fork.rs: names of forks as text.
pub mod Roundtrip
use Prim.Native.String.{String, ◌++◌}
use rs_mev_relay.Prelude.{
  ℕ, ◌+◌, ltb, ◌&&◌, ◌||◌, List, map, Result, ok, err, codes, same_text, if◌then◌else◌,
}
use rs_mev_relay.Primitives.Headers.{ForkName, base, altair, merge, capella, deneb}

-- `to_lowercase`, on the letters of ASCII: a text with another letter is no name of a fork, in
-- either case.
unfoldable pub to_lower : ℕ → ℕ
to_lower c = if ltb 64 c && ltb c 91 then c + 32 else c

unfoldable pub to_lowercase : String → List ℕ
to_lowercase s = map to_lower (codes s)

unfoldable pub from_str : String → Result String ForkName
from_str fork_name =
    let name = to_lowercase fork_name in
    if same_text name (codes "phase0") || same_text name (codes "base")
    then ok base
    else if same_text name (codes "altair")
    then ok altair
    else if same_text name (codes "bellatrix") || same_text name (codes "merge")
    then ok merge
    else if same_text name (codes "capella")
    then ok capella
    else if same_text name (codes "deneb")
    then ok deneb
    else err ("unknown fork name: " ++ fork_name)

unfoldable pub display : ForkName → String
display base = "phase0"
display altair = "altair"
display merge = "bellatrix"
display capella = "capella"
display deneb = "deneb"

-- `TryFrom<String>` and `From<ForkName>`, with which serde reads and writes names.
unfoldable pub try_from : String → Result String ForkName
try_from s = from_str s

unfoldable pub into : ForkName → String
into fork = display fork
