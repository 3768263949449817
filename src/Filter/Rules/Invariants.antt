-- ===== src/Filter/Rules/Invariants.antt =====
-- What every step of `Builder` (core/crates/filter/src/domain_rules.rs) keeps, every way of adding
-- lists keeps.
use tollgate.Common.{
  arith, ℕ, ◌+◌, ◌⊎◌, inl, inr, ◌≡◌, refl, Bool, true, false, Option, none, some, List, [], ◌∷◌,
  Text, contains, Bool-cases, if◌then◌else◌, ◌==◌, eq_ignore_ascii_case, codes,
}
use tollgate.Filter.Rules.Lines.{
  Kind, Line, comment, skip, rule, block, is_pattern, parse_adblock_line,
}
use tollgate.Filter.Rules.Builder.{
  Builder, DnsList, ListFormat, adblock, hosts, insert, set, is_exempt, count_exempted,
  count_skipped, note_badfilter, file, host_to_add, insert_pattern, add_rule, add_line,
  add_adblock_line, add_host, add_hosts, add_fields, add_hosts_line, add_lines, adder, add_list,
  add_lists, starts_with_address, without_mark,
}
use tollgate.Common.{lines, split_once, split_whitespace, trim}
use tollgate.Filter.Rules.Stored.{
  IsName, Fits, LineFits, normalize_name-IsName, parse_adblock_line-LineFits,
}

-- `list` is one of the lists.
abbrev pub Among : DnsList → List DnsList → Type 0
Among list [] = ⊥
Among list (l ∷ lists) = (list ≡ l) ⊎ Among list lists

pub record Closed (lists : List DnsList) (J I : Builder → Type 0) : Type 0 where
  pub starting :
      (b : Builder) (l : DnsList) → Among l lists → J b → I (record b { exempt = l.exempt })
  pub resting : (b : Builder) → I b → J b
  pub skipping : (b : Builder) → I b → I (count_skipped 1 b)
  pub exempting : (b : Builder) → I b → I (count_exempted b)
  pub cancelling : (b : Builder) (kind : Kind) (name : Text) → I b → I (note_badfilter b kind name)
  pub keeping :
      (b : Builder) (kind : Kind) (name : Text)
      → Fits kind name
      → is_exempt b kind name ≡ false
      → is_pattern kind ≡ false
      → I b
      → I (insert b kind name)
  pub filing :
      (b : Builder) (kind : Kind) (name : Text)
      → Fits kind name
      → is_exempt b kind name ≡ false
      → is_pattern kind ≡ true
      → contains (set b kind) name ≡ false
      → I b
      → I (file b kind name)

host_to_add-IsName : (name n : Text) → host_to_add name ≡ some n → IsName n
unfolding host_to_add
host_to_add-IsName name n h =
    elim (Bool-cases (eq_ignore_ascii_case name (codes "localhost.localdomain"))) [
      | inl e ↦ absurd (ground arith)
      | inr e ↦ normalize_name-IsName name n (ground arith)
    ]

module _ (lists : List DnsList) (J I : Builder → Type 0) (c : Closed lists J I) where
  insert_pattern-keeps :
      (b : Builder) (kind : Kind) (name : Text)
      → Fits kind name
      → is_exempt b kind name ≡ false
      → is_pattern kind ≡ true
      → I b
      → I (insert_pattern b kind name)
  unfolding insert_pattern
  insert_pattern-keeps b kind name fits spared pattern i =
      elim (Bool-cases (contains (set b kind) name)) [
        | inl e ↦ rw e i
        | inr e ↦ rw e (c.filing b kind name fits spared pattern e i)
      ]

  add_rule-keeps :
      (b : Builder) (kind : Kind) (name : Text) (badfilter : Bool)
      → Fits kind name
      → I b
      → I (add_rule b kind name badfilter)
  unfolding add_rule
  add_rule-keeps b kind name true fits i = c.cancelling b kind name i
  add_rule-keeps b kind name false fits i = elim (Bool-cases (is_exempt b kind name)) [
    | inl e ↦ rw e (c.exempting b i)
    | inr e ↦ rw e (elim (Bool-cases (is_pattern kind)) [
      | inl p ↦ rw p (insert_pattern-keeps b kind name fits e p i)
      | inr p ↦ rw p (c.keeping b kind name fits e p i)
    ])
  ]

  add_line-keeps : (b : Builder) (l : Line) → LineFits l → I b → I (add_line b l)
  unfolding add_line
  add_line-keeps b comment fits i = i
  add_line-keeps b skip fits i = c.skipping b i
  add_line-keeps b (rule kind name badfilter) fits i = add_rule-keeps b kind name badfilter fits i

  add_adblock_line-keeps : (b : Builder) (line : Text) → I b → I (add_adblock_line b line)
  unfolding add_adblock_line
  add_adblock_line-keeps b line i =
      add_line-keeps b (parse_adblock_line line) (parse_adblock_line-LineFits line) i

  add_host-keeps : (b : Builder) (name : Text) → IsName name → I b → I (add_host b name)
  unfolding add_host
  add_host-keeps b name h i = elim (Bool-cases (is_exempt b block name)) [
    | inl e ↦ rw e (c.exempting b i)
    | inr e ↦ rw e (c.keeping b block name h e refl i)
  ]

  add_hosts-keeps : (b : Builder) (n : ℕ) (names : List Text) → I b → I (add_hosts b n names).0
  unfolding add_hosts
  add_hosts-keeps b n [] i = i
  add_hosts-keeps b n (name ∷ names) i =
      go (λ b' n' i'. add_hosts-keeps b' n' names i') (host_to_add name) refl
    where
      go :
          ((b' : Builder) (n' : ℕ) → I b' → I (add_hosts b' n' names).0)
          → (o : Option Text) → host_to_add name ≡ o
          → I (
              let r : Builder × ℕ = elim o [
                | none ↦ add_hosts b n names
                | some name' ↦ add_hosts (add_host b name') (n + 1) names
              ] in
              r.0)
      go next none e = next b n i
      go next (some name') e =
          next (add_host b name') (n + 1)
            (add_host-keeps b name' (host_to_add-IsName name name' e) i)

  add_fields-keeps : (b : Builder) (fields : List Text) → I b → I (add_fields b fields)
  unfolding add_fields
  add_fields-keeps b [] i = i
  add_fields-keeps b (first ∷ fields) i =
      let names = if starts_with_address first then fields else first ∷ fields in
      let kept = add_hosts-keeps b 0 names i in
      elim (Bool-cases ((add_hosts b 0 names).1 == 0)) [
        | inl e ↦ rw e (c.skipping (add_hosts b 0 names).0 kept)
        | inr e ↦ rw e kept
      ]

  add_hosts_line-keeps : (b : Builder) (line : Text) → I b → I (add_hosts_line b line)
  unfolding add_hosts_line
  add_hosts_line-keeps b line i =
      add_fields-keeps b (split_whitespace (trim (split_once b'#' line).0)) i

  adder-keeps : (f : ListFormat) (b : Builder) (line : Text) → I b → I (adder f b line)
  adder-keeps adblock b line i = add_adblock_line-keeps b line i
  adder-keeps hosts b line i = add_hosts_line-keeps b line i

  add_lines-keeps :
      (f : ListFormat) (b : Builder) (rest : List Text) → I b → I (add_lines (adder f) b rest)
  unfolding add_lines
  add_lines-keeps f b [] i = i
  add_lines-keeps f b (line ∷ rest) i =
      add_lines-keeps f (adder f b line) rest (adder-keeps f b line i)

  add_list-keeps : (b : Builder) (l : DnsList) → Among l lists → J b → J (add_list b l)
  unfolding add_list
  add_list-keeps b l here i =
      let started = record b { exempt = l.exempt } in
      let rest = lines (without_mark l.source.text) in
      c.resting (add_lines (adder l.source.format) started rest)
        (add_lines-keeps l.source.format started rest (c.starting b l here i))

  pub add_lists-keeps :
      (b : Builder) (rest : List DnsList)
      → ((l : DnsList) → Among l rest → Among l lists)
      → J b
      → J (add_lists b rest)
  unfolding add_lists
  add_lists-keeps b [] sub i = i
  add_lists-keeps b (l ∷ rest) sub i =
      add_lists-keeps (add_list b l) rest (λ l' m. sub l' (inr m))
        (add_list-keeps b l (sub l (inl refl)) i)
