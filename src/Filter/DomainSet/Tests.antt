-- ===== src/Filter/DomainSet/Tests.antt =====
-- Concrete inputs for the theorems on core/crates/filter/src/domain_set.rs.
use tollgate.Common.{
  ◌≡◌, refl, Bool, true, false, Option, none, some, unwrap_or, List, [], ◌∷◌, ◌++◌, take, drop,
  arith, Bytes, codes, strip_dot,
}
use tollgate.Filter.PatternSet
use tollgate.Filter.PatternSet.Filing.{all-AllBytes}
use tollgate.Filter.Rules.Builder.{DnsList, adblock}
use tollgate.Filter.Rules.Limits.{parse_exempting}
use tollgate.Filter.DomainSet.{DomainSet}
use tollgate.Filter.DomainSet.Encode.{Sections, encode, file_of}
use tollgate.Filter.DomainSet.Load.{ok, err, bad_checksum, new}
use tollgate.Filter.DomainSet.Lookup.{is_blocked, dotted_names, max_names, name_hashes}
use tollgate.Filter.DomainSet.Listed.{rules_block}
use tollgate.Filter.DomainSet.Decides.{encode-is_blocked}
use tollgate.Filter.DomainSet.Loaded.{loaded}
use tollgate.Filter.DomainSet.Accepted.{IsDomainSet, new-IsDomainSet}
use tollgate.Filter.DomainSet.Damaged.{new-bad_checksum}

-- a block, an exception of one host under it, and a block of a family of hosts
abbrev rule_lists : List DnsList
rule_lists =
    record {
      source = record {
        text = codes "||ads.example^\n@@|ok.ads.example^|\n||log*.example.com^";
        format = adblock;
      };
      exempt = none;
    }
    ∷ []

abbrev rule_file : Bytes
rule_file = unwrap_or (encode (parse_exempting rule_lists)) []

encode-rule_lists : encode (parse_exempting rule_lists) ≡ some rule_file
unfolding encode parse_exempting
encode-rule_lists = refl

encode-is_blocked_example :
    (set : DomainSet) × (new rule_file ≡ ok set)
    × ((host : Bytes)
        → is_blocked set host
          ≡ rules_block
              (parse_exempting rule_lists)
              (name_hashes (dotted_names max_names (strip_dot host)))
              (strip_dot host))
encode-is_blocked_example = encode-is_blocked rule_lists rule_file encode-rule_lists

-- the exception wins over the block of the parent, for that host only
abbrev decides_rules : Bytes → Bool
decides_rules host =
    rules_block (parse_exempting rule_lists) (name_hashes (dotted_names max_names (strip_dot host)))
      (strip_dot host)

blocked_hosts :
    (decides_rules (codes "x.ADS.example.") ≡ true)
    × (decides_rules (codes "ok.ads.example") ≡ false)
    × (decides_rules (codes "a.ok.ads.example") ≡ true)
    × (decides_rules (codes "x.log7.example.com") ≡ true)
unfolding name_hashes dotted_names parse_exempting tollgate.Filter.Wildcard.matches
    tollgate.Common.parents tollgate.Filter.DomainSet.Hash.exact_hash
blocked_hosts = (refl, refl, refl, refl)

-- a file with one hash
abbrev one_hash : Sections
one_hash = record {
  block = 0x0102_0304_0506_0708 ∷ [];
  allow = [];
  important = [];
  allow_patterns = [];
  block_patterns = codes "|ads*.example.com\n";
}

abbrev one_hash_set : DomainSet
one_hash_set =
    loaded one_hash (PatternSet.new [])
      (PatternSet.new (record { glob = codes "ads*.example.com"; parents = false } ∷ []))

new_one_hash : new (file_of one_hash) ≡ ok one_hash_set
unfolding new PatternSet.new tollgate.Filter.DomainSet.Encode.file_with
    tollgate.Filter.DomainSet.Hash.checksum tollgate.Common.strip_prefix
    tollgate.Filter.Wildcard.is_valid_pattern
new_one_hash = refl

new-IsDomainSet_example : IsDomainSet (file_of one_hash) one_hash_set
new-IsDomainSet_example = new-IsDomainSet (file_of one_hash) one_hash_set new_one_hash

-- the third byte of the hash, 6, becomes 7
new-bad_checksum_example :
    new (take 42 (file_of one_hash) ++ 7 ∷ drop 43 (file_of one_hash)) ≡ err bad_checksum
unfolding new PatternSet.new tollgate.Filter.DomainSet.Encode.file_with
    tollgate.Filter.DomainSet.Hash.checksum
new-bad_checksum_example =
    new-bad_checksum (take 42 (file_of one_hash)) 6 7 (drop 43 (file_of one_hash)) one_hash_set
      (omega arith) (omega arith) (all-AllBytes (drop 43 (file_of one_hash)) refl)
      (λ e. omega (arith, e)) new_one_hash (omega arith)
