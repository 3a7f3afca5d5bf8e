-- ===== src/Peers.antt =====
-- The addresses of the nodes: `Peer` and `parse_peers` of src/rpc.rs, and `split_host_port` and
-- `parent_dir` of src/apply.rs.
mod Parsing
mod Tests
use hyperiondb.Prelude.{ℕ, Bool, Option, none, some, List, [], ◌∷◌, if◌then◌else◌, ◌>>=◌}
use hyperiondb.Prelude.Text.{Text, codes, is_empty, trim, split, split_once, rsplit_once}
use hyperiondb.Prelude.Text.Decimal.{parse_u64}

-- A node's id and address.
abbrev pub Peer : Type 0
Peer = ℕ × Text

unfoldable pub parse_entry : Text → Option Peer
parse_entry entry = do
  parts ← split_once b'@' entry
  id ← parse_u64 (trim parts.0)
  some (id, trim parts.1)

-- The closure of `filter_map`: entries that are blank or malformed are skipped.
unfoldable pub peer_of : Text → Option Peer
peer_of entry = if is_empty (trim entry) then none else parse_entry (trim entry)

abbrev pub onto_some : {A : Type 0} → Option A → List A → List A
onto_some none xs = xs
onto_some (some x) xs = x ∷ xs

abbrev pub filter_map : {A B : Type 0} → (A → Option B) → List A → List B
filter_map f [] = []
filter_map f (x ∷ xs) = onto_some (f x) (filter_map f xs)

unfoldable pub parse_peers : Text → List Peer
parse_peers spec = filter_map peer_of (split b',' spec)

unfoldable pub split_host_port : Text → Text × Text
split_host_port addr = elim (rsplit_once b':' addr) [
  | none ↦ (addr, codes "5432")
  | some parts ↦ parts
]

unfoldable pub parent_dir : Text → Text
parent_dir path = elim (rsplit_once b'/' path) [ none ↦ codes "." | some parts ↦ parts.0 ]
