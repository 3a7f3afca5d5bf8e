-- ===== src/Peers/Tests.antt =====
-- Lists of peers, and addresses.
use hyperiondb.Prelude.{◌≡◌, refl, List, [], ◌∷◌, map, arith, All}
use hyperiondb.Prelude.Text.{codes, join, is_white}
use hyperiondb.Prelude.Text.Decimal.{parse_u64, scan, scan_all}
use hyperiondb.Peers.{Peer, parse_entry, peer_of, parse_peers, split_host_port, parent_dir}
use hyperiondb.Peers.Parsing.{IsClean, print_peer, parse_peers-join}

abbrev two_peers : List Peer
two_peers = (1, codes "10.0.0.1:7400") ∷ (2, codes "[::1]:7400") ∷ []

malformed_skipped :
    parse_peers (codes " +1@a:1 ,, x@b, 2@ c@d ,18446744073709551616@e,3")
    ≡ (1, codes "a:1") ∷ (2, codes "c@d") ∷ []
unfolding parse_peers peer_of parse_entry parse_u64 scan scan_all is_white
malformed_skipped = refl

last_colon : split_host_port (codes "[::1]:7400") ≡ (codes "[::1]", codes "7400")
unfolding split_host_port
last_colon = refl

directory :
    (parent_dir (codes "/usr/bin/psql") ≡ codes "/usr/bin")
    × (parent_dir (codes "psql") ≡ codes ".")
unfolding parent_dir
directory = (refl, refl)

two_peers-IsClean : All IsClean two_peers
unfolding is_white
two_peers-IsClean = (
  record { fits = omega arith; no_comma = omega arith; start_trimmed = refl; end_trimmed = refl },
  (
    record { fits = omega arith; no_comma = omega arith; start_trimmed = refl; end_trimmed = refl },
    tt,
  ),
)

parse_peers-join_example : parse_peers (join (b',' ∷ []) (map print_peer two_peers)) ≡ two_peers
parse_peers-join_example = parse_peers-join two_peers two_peers-IsClean
