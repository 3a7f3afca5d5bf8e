-- ===== src/Peers/Parsing.antt =====
-- `parse_peers` of src/rpc.rs reads back what is printed, entry by entry, and `split_host_port` of
-- src/apply.rs splits at the last colon.
use mathlib.Core.Option.{some-injective}
use mathlib.Core.List.{append_assoc}
use hyperiondb.Prelude.{
  ℕ, ◌<◌, ◌≡◌, refl, sym, ap, ◌∙◌, Bool, false, Option, none, some, List, [], ◌∷◌, ◌++◌, map, arith,
  All, ◌>>=◌, >>=-eq-some, if◌then◌else◌, Option-cases, inl, inr,
}
use hyperiondb.Prelude.Words.{u64_mod}
use hyperiondb.Prelude.Text.{
  Text, codes, is_empty, is_white, trim, trim_start, trim_end, split, split_once, join, Lacks,
  split-append, split-Lacks, split_once-append, rsplit_once-append, rsplit_once-Lacks, Lacks-append,
  trim_end-append, trim-cons, cons_unless-kept,
}
use hyperiondb.Prelude.Text.Decimal.{
  show, parse_u64, parse_u64-show, parse_u64-bound, show-cons, IsDigit, digits-IsDigit,
}
use hyperiondb.Peers.{
  Peer, parse_entry, peer_of, onto_some, filter_map, parse_peers, split_host_port,
}

-- An id that is a `u64`, and an address without a comma and without spaces around it.
pub record IsClean (p : Peer) : Type 0 where
  pub fits : p.0 < u64_mod
  pub no_comma : Lacks b',' p.1
  pub start_trimmed : trim_start p.1 ≡ p.1
  pub end_trimmed : trim_end p.1 ≡ p.1

abbrev pub print_peer : Peer → Text
print_peer p = show p.0 ++ b'@' ∷ p.1

digit-solid : (c : ℕ) → IsDigit c → is_white c ≡ false
unfolding is_white
digit-solid c h = ground arith

at-solid : is_white b'@' ≡ false
unfolding is_white
at-solid = refl

trim_end-digits : (s : Text) → All IsDigit s → trim_end s ≡ s
trim_end-digits [] h = refl
trim_end-digits (c ∷ s) (d, h) =
    cons_unless-kept c (trim_end s) (digit-solid c d) ∙ ap (◌∷◌ c) (trim_end-digits s h)

trim-show : (n : ℕ) → trim (show n) ≡ show n
trim-show n =
    let (c, s, e, d, h) = show-cons n in
    ap trim e ∙ trim-cons c s (digit-solid c d) ∙ ap (◌∷◌ c) (trim_end-digits s h) ∙ sym e

digits-Lack : (sep : ℕ) (s : Text) → b'9' < sep → All IsDigit s → Lacks sep s
digits-Lack sep [] h a = tt
digits-Lack sep (c ∷ s) h (d, a) = (λ e. absurd (omega arith), digits-Lack sep s h a)

commas-Lack : (s : Text) → All IsDigit s → Lacks b',' s
commas-Lack [] a = tt
commas-Lack (c ∷ s) (d, a) = (λ e. absurd (omega arith), commas-Lack s a)

trim-print_peer : (p : Peer) → IsClean p → trim (print_peer p) ≡ print_peer p
trim-print_peer p clean =
    let (c, s, e, d, h) = show-cons p.0 in
    ap (λ (t : Text). trim (t ++ b'@' ∷ p.1)) e
    ∙ trim-cons c (s ++ b'@' ∷ p.1) (digit-solid c d)
    ∙ ap (◌∷◌ c)
        (trim_end-append s p.1 b'@' at-solid ∙ ap (λ (t : Text). s ++ b'@' ∷ t) clean.end_trimmed)
    ∙ ap (λ (t : Text). t ++ b'@' ∷ p.1) (sym e)

print_peer-nonempty : (p : Peer) → is_empty (print_peer p) ≡ false
print_peer-nonempty p =
    let (c, s, e, d, h) = show-cons p.0 in ap (λ (t : Text). is_empty (t ++ b'@' ∷ p.1)) e

trim-address : (p : Peer) → IsClean p → trim p.1 ≡ p.1
trim-address p clean = ap trim_end clean.start_trimmed ∙ clean.end_trimmed

parse_entry-print_peer : (p : Peer) → IsClean p → parse_entry (print_peer p) ≡ some p
unfolding parse_entry
parse_entry-print_peer p clean =
    ap
      (λ (o : Option (Text × Text)).
        o >>= (λ parts. parse_u64 (trim parts.0) >>= (λ id. some (id, trim parts.1))))
      (split_once-append b'@' (show p.0) p.1
        (digits-Lack b'@' (show p.0) (omega arith) (digits-IsDigit 20 p.0 [] tt)))
    ∙ ap (λ (t : Text). parse_u64 t >>= (λ id. some (id, trim p.1))) (trim-show p.0)
    ∙ ap (λ (o : Option ℕ). o >>= (λ id. some (id, trim p.1))) (parse_u64-show p.0 clean.fits)
    ∙ ap (λ (t : Text). some (p.0, t)) (trim-address p clean)

peer_of-print_peer : (p : Peer) → IsClean p → peer_of (print_peer p) ≡ some p
unfolding peer_of
peer_of-print_peer p clean =
    let e = trim-print_peer p clean in
    ap (λ (t : Text). if is_empty t then none else parse_entry t) e
    ∙ ap (λ (b : Bool). if b then none else parse_entry (print_peer p)) (print_peer-nonempty p)
    ∙ parse_entry-print_peer p clean

filter_map-append :
    (f : Text → Option Peer) (xs ys : List Text)
    → filter_map f (xs ++ ys) ≡ filter_map f xs ++ filter_map f ys
filter_map-append f [] ys = refl
filter_map-append f (x ∷ xs) ys = elim (Option-cases (f x)) [
  | inl e ↦ simp e (filter_map-append f xs ys)
  | inr (a, e) ↦ simp e (ap (◌∷◌ a) (filter_map-append f xs ys))
]

-- Two specifications with a comma between them are read one after the other, whatever is malformed
-- in either.
pub parse_peers-append : (a b : Text) → parse_peers (a ++ b',' ∷ b) ≡ parse_peers a ++ parse_peers b
unfolding parse_peers
parse_peers-append a b =
    ap (filter_map peer_of) (split-append b',' a b)
    ∙ filter_map-append peer_of (split b',' a) (split b',' b)

parse_peers-print_peer : (p : Peer) → IsClean p → parse_peers (print_peer p) ≡ p ∷ []
unfolding parse_peers
parse_peers-print_peer p clean =
    ap (filter_map peer_of) (
      split-Lacks b',' (print_peer p) (
        Lacks-append b',' (show p.0) (b'@' ∷ p.1)
          (commas-Lack (show p.0) (digits-IsDigit 20 p.0 [] tt))
          (λ e. absurd (omega arith), clean.no_comma)))
    ∙ ap (λ (o : Option Peer). onto_some o []) (peer_of-print_peer p clean)

parse_peers-nil : parse_peers [] ≡ []
unfolding parse_peers peer_of
parse_peers-nil = refl

-- Peers that are printed as `id@address` with commas between them are read back in order, if their
-- ids are `u64`s and their addresses have no comma and no spaces around them.
pub parse_peers-join :
    (ps : List Peer) → All IsClean ps → parse_peers (join (b',' ∷ []) (map print_peer ps)) ≡ ps
parse_peers-join [] a = parse_peers-nil
parse_peers-join (p ∷ []) (clean, a) = parse_peers-print_peer p clean
parse_peers-join (p ∷ (q ∷ ps)) (clean, a) =
    ap parse_peers
      (append_assoc (print_peer p) (b',' ∷ []) (join (b',' ∷ []) (map print_peer (q ∷ ps))))
    ∙ parse_peers-append (print_peer p) (join (b',' ∷ []) (map print_peer (q ∷ ps)))
    ∙ ap (λ (xs : List Peer). xs ++ parse_peers (join (b',' ∷ []) (map print_peer (q ∷ ps))))
        (parse_peers-print_peer p clean)
    ∙ ap (◌∷◌ p) (parse_peers-join (q ∷ ps) a)

-- An address splits at its last colon, and has the port 5432 if it has none.
pub split_host_port-last :
    (host port : Text)
    → Lacks b':' port
    → (split_host_port (host ++ b':' ∷ port) ≡ (host, port))
      × (split_host_port port ≡ (port, codes "5432"))
unfolding split_host_port
split_host_port-last host port h = (
  rw (split_host_port, rsplit_once-append b':' host port h) refl,
  rw (split_host_port, rsplit_once-Lacks b':' port h) refl,
)

peer_of-bound : (entry : Text) (p : Peer) → peer_of entry ≡ some p → p.0 < u64_mod
unfolding peer_of parse_entry
peer_of-bound entry p h =
    let h₁ : parse_entry (trim entry) ≡ some p = ground (arith, h) in
    let (parts, at_sign, h₂) = >>=-eq-some (split_once b'@' (trim entry)) _ h₁ in
    let (id, parsed, h₃) = >>=-eq-some (parse_u64 (trim parts.0)) _ h₂ in
    let first : id ≡ p.0 = ap (λ (q : Peer). q.0) (some-injective _ _ h₃) in
    omega (arith, parse_u64-bound (trim parts.0) id parsed)

filter_map-All :
    (P : Peer → Type 0) (f : Text → Option Peer) (xs : List Text)
    → ((x : Text) (p : Peer) → f x ≡ some p → P p)
    → All P (filter_map f xs)
filter_map-All P f [] h = tt
filter_map-All P f (x ∷ xs) h = elim (Option-cases (f x)) [
  | inl e ↦ simp e (filter_map-All P f xs h)
  | inr (a, e) ↦ simp e (h x a e, filter_map-All P f xs h)
]

-- Every id that is read is a `u64`.
pub parse_peers-bound : (spec : Text) → All (λ (p : Peer). p.0 < u64_mod) (parse_peers spec)
unfolding parse_peers
parse_peers-bound spec = filter_map-All _ peer_of (split b',' spec) peer_of-bound
