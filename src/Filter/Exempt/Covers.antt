-- ===== src/Filter/Exempt/Covers.antt =====
-- What core/crates/filter/src/exempt.rs exempts, against trying every pattern.
use tollgate.Common.{
  ◌≡◌, ◌∙◌, refl, Bool, true, false, not, ◌&&◌, ◌||◌, List, [], ◌∷◌, arith, Bytes, any, contains,
  is_empty, str_eq, str_eq_iff, lower, strip_dot, parents, trim, if◌then◌else◌,
}
use tollgate.Policy.PatternSet.{set_insert}
use tollgate.Policy.PatternSet.Refines.{
  contains-set_insert, any-contains-set_insert, any-contains_nil,
}
use tollgate.Filter.Exempt.{
  Exemption, no_exemption, domain_and_name, insert_all, add_name, add, add_all, new, covers_host,
  covers, covers_subtree,
}

-- what one pattern, read as a kind and a name, says of a host's name
abbrev pub exempts : Bool × Bytes → Bytes → Bool
exempts (domain, name) key =
    not (is_empty name) && (if domain then contains (key ∷ parents key) name else str_eq key name)

-- whether the pattern's name is under another name
abbrev pub is_above : Bytes → Bool × Bytes → Bool
is_above key (domain, name) = not (is_empty name) && contains (parents name) key

contains-insert_all :
    (names set : List Bytes) (t : Bytes)
    → contains (insert_all set names) t ≡ (contains set t || contains names t)
contains-insert_all [] set t = ground arith
contains-insert_all (n ∷ names) set t =
    ground (arith, contains-insert_all names (set_insert set n) t, contains-set_insert set n t)

covers_host-add_name :
    (e : Exemption) (domain : Bool) (name key : Bytes)
    → covers_host (add_name e domain name) key ≡ (
        covers_host e key
        || (if domain then contains (key ∷ parents key) name else str_eq key name))
unfolding covers_host add_name
covers_host-add_name e true name key =
    ground (arith, any-contains-set_insert e.domains name (key ∷ parents key))
covers_host-add_name e false name key =
    ground (arith, contains-set_insert e.hosts name key, str_eq_iff key name, str_eq_iff name key)

ancestors-add_name :
    (e : Exemption) (domain : Bool) (name key : Bytes)
    → contains (add_name e domain name).ancestors key
      ≡ (contains e.ancestors key || contains (parents name) key)
unfolding add_name
ancestors-add_name e true name key = contains-insert_all (parents name) e.ancestors key
ancestors-add_name e false name key = contains-insert_all (parents name) e.ancestors key

covers_host-add :
    (e : Exemption) (p key : Bytes)
    → covers_host (add e p) key ≡ (covers_host e key || exempts (domain_and_name (trim p)) key)
unfolding add
covers_host-add e p key =
    let (domain, name) = domain_and_name (trim p) in
    ground (arith, covers_host-add_name e domain name key)

ancestors-add :
    (e : Exemption) (p key : Bytes)
    → contains (add e p).ancestors key
      ≡ (contains e.ancestors key || is_above key (domain_and_name (trim p)))
unfolding add
ancestors-add e p key =
    let (domain, name) = domain_and_name (trim p) in
    ground (arith, ancestors-add_name e domain name key)

covers_host-add_all :
    (ps : List Bytes) (e : Exemption) (key : Bytes)
    → covers_host (add_all e ps) key
      ≡ (covers_host e key || any (λ p. exempts (domain_and_name (trim p)) key) ps)
unfolding add_all
covers_host-add_all [] e key = ground arith
covers_host-add_all (p ∷ ps) e key =
    ground (arith, covers_host-add_all ps (add e p) key, covers_host-add e p key)

ancestors-add_all :
    (ps : List Bytes) (e : Exemption) (key : Bytes)
    → contains (add_all e ps).ancestors key
      ≡ (contains e.ancestors key || any (λ p. is_above key (domain_and_name (trim p))) ps)
unfolding add_all
ancestors-add_all [] e key = ground arith
ancestors-add_all (p ∷ ps) e key =
    ground (arith, ancestors-add_all ps (add e p) key, ancestors-add e p key)

no_exemption-covers_host : (key : Bytes) → covers_host no_exemption key ≡ false
unfolding covers_host
no_exemption-covers_host key = any-contains_nil (key ∷ parents key)

pub covers_host-new :
    (ps : List Bytes) (key : Bytes)
    → covers_host (new ps) key ≡ any (λ p. exempts (domain_and_name (trim p)) key) ps
unfolding new
covers_host-new ps key =
    covers_host-add_all ps no_exemption key ∙ rw (no_exemption-covers_host key) refl

-- The three hash sets exempt a host exactly when some pattern does: a `name` pattern the host of
-- that name, a `*.name` pattern the name and every name under it. Letter case and one final dot of
-- the host do not matter.
pub covers-new :
    (ps : List Bytes) (host : Bytes)
    → covers (new ps) host
      ≡ any (λ p. exempts (domain_and_name (trim p)) (lower (strip_dot host))) ps
unfolding covers
covers-new ps host = covers_host-new ps (lower (strip_dot host))

-- A block of a name and its subdomains covers an exempt host exactly when some pattern exempts the
-- name itself or has a name under it.
pub covers_subtree-new :
    (ps : List Bytes) (name : Bytes)
    → covers_subtree (new ps) name ≡ (
        any (λ p. exempts (domain_and_name (trim p)) name) ps
        || any (λ p. is_above name (domain_and_name (trim p))) ps)
unfolding covers_subtree new
covers_subtree-new ps name =
    rw
      (
        covers_host-add_all ps no_exemption name,
        ancestors-add_all ps no_exemption name,
        no_exemption-covers_host name,
      )
      refl
