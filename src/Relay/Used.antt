-- ===== src/Relay/Used.antt =====
-- Which relays are used, and with which token.
use locho.Base.{
  ok-injective, Bool, true, false, not, ◌||◌, ◌&&◌, ◌++◌, List, [], ◌∷◌, Option, none, some, Bytes,
  str_eq, str_eq_iff, contains, bytes_eq, All, is_empty, if◌then◌else◌, ok, >>=-eq-ok, bail_if-then,
  ◌≡◌, refl, sym, ap, subst, ◌∙◌, ◌⊎◌, inl, inr, arith, Bool-cases,
}
use locho.Host.{lookup}
use locho.Relay.{
  RelayOptions, duplicate_url, empty_configuration, Url, RelayConfig, RelayMap, RelaySettings,
  Filled, nothing_filled, Libraries, config_of, parse_relay_url, check_token, add_relay, add_relays,
  extended, new,
}

lookup-append :
    (k : Bytes) (a b : RelayMap) {v : RelayConfig}
    → lookup k a ≡ some v
    → lookup k (a ++ b) ≡ some v
lookup-append k [] b h = absurd (ground arith)
lookup-append k ((j, w) ∷ a) b {v} h = ground (arith, lookup-append k a b {v = v})

lookup-append_inv :
    (k : Bytes) (a b : RelayMap) {v : RelayConfig}
    → lookup k (a ++ b) ≡ some v
    → (lookup k a ≡ some v) ⊎ (lookup k b ≡ some v)
lookup-append_inv k [] b h = inr h
lookup-append_inv k ((j, w) ∷ a) b h = elim (Bool-cases (str_eq j k)) [
  | inl e ↦ inl (rw e (rw e at h))
  | inr e ↦ rw e (lookup-append_inv k a b (rw e at h))
]

some-injective {ℓ} : {A : Type ℓ} {a b : A} → ◌≡◌ {A = Option A} (some a) (some b) → b ≡ a
some-injective {a = a} h = sym (ap (λ o. elim o [ some x ↦ x | none ↦ a ]) h)

later : (x u : Bytes) (xs : List Bytes) → contains xs u ≡ true → contains (x ∷ xs) u ≡ true
later x u xs h = ground arith

other :
    (urls : List Bytes) (u v : Bytes)
    → contains urls u ≡ false
    → contains urls v ≡ true
    → str_eq u v ≡ false
other urls u v h k = elim (Bool-cases (str_eq u v)) [
  | inr apart ↦ apart
  | inl same ↦ absurd (differs (sym h ∙ ap (contains urls) ((str_eq_iff u v).0 same) ∙ k))
]
  where
    differs : false ≡ true → ⊥
    differs e = ground arith

module _ (libraries : Libraries) where
  -- What one round does.
  pub record Added (option : RelayOptions) (filled filled1 : Filled) : Type 0 where
    pub url : Url
    pub parses : parse_relay_url libraries option.url ≡ ok url
    pub fresh : contains filled.urls url.text ≡ false
    pub checked : check_token libraries option.auth_token ≡ ok tt
    pub urls : filled1.urls ≡ url.text ∷ filled.urls
    pub custom_map : filled1.custom_map ≡ (url.text, config_of url option) ∷ filled.custom_map

  add_relay-Added :
      (option : RelayOptions) (filled : Filled) {filled1 : Filled}
      → add_relay libraries option filled ≡ ok filled1
      → Added option filled filled1
  add_relay-Added option filled {filled1} h =
      let (url, parses, h1) = >>=-eq-ok (parse_relay_url libraries option.url) _ h in
      let (fresh, h2) = bail_if-then (contains filled.urls url.text) duplicate_url h1 in
      let (u, checked, h3) = >>=-eq-ok (check_token libraries option.auth_token) _ h2 in
      let made = ok-injective h3 in
      record {
        url = url;
        parses = parses;
        fresh = fresh;
        checked = checked;
        urls = sym (ap (λ f. f.urls) made);
        custom_map = sym (ap (λ f. f.custom_map) made);
      }

  -- A URL that was taken stays so, with what it was given.
  add_relays-keeps :
      (options : List RelayOptions) (filled : Filled) (u : Bytes) {filled1 : Filled}
      → add_relays libraries options filled ≡ ok filled1
      → contains filled.urls u ≡ true
      → lookup u filled1.custom_map ≡ lookup u filled.custom_map
  add_relays-keeps [] filled u h taken = sym (ap (λ f. lookup u f.custom_map) (ok-injective h))
  add_relays-keeps (option ∷ options) filled u {filled1} h taken =
      let (filled2, e, h1) =
        >>=-eq-ok (add_relay libraries option filled) (add_relays libraries options) h in
      let added = add_relay-Added option filled e in
      let apart = other filled.urls added.url.text u added.fresh taken in
      add_relays-keeps options filled2 u h1
        (ap (λ urls. contains urls u) added.urls ∙ later added.url.text u filled.urls taken)
      ∙ ap (lookup u) added.custom_map
      ∙ ap (λ same. if same then some (config_of added.url option) else lookup u filled.custom_map)
          apart

  -- The relay of an option is in use, under its own URL and with its own token.
  abbrev pub IsUsed : RelayMap → RelayOptions → Type 0
  IsUsed relays option =
      (url : Url) × (parse_relay_url libraries option.url ≡ ok url)
      × (check_token libraries option.auth_token ≡ ok tt)
      × (lookup url.text relays ≡ some (config_of url option))

  -- A configuration is that of one of the options.
  abbrev pub ComesFrom : Bytes → RelayConfig → List RelayOptions → Type 0
  ComesFrom u config [] = ⊥
  ComesFrom u config (option ∷ options) =
      ((url : Url) × (parse_relay_url libraries option.url ≡ ok url)
        × (url.text ≡ u)
        × (config ≡ config_of url option))
      ⊎ ComesFrom u config options

  add_relays-IsUsed :
      (options : List RelayOptions) (filled : Filled) {filled1 : Filled}
      → add_relays libraries options filled ≡ ok filled1
      → All (IsUsed filled1.custom_map) options
  add_relays-IsUsed [] filled h = tt
  add_relays-IsUsed (option ∷ options) filled {filled1} h =
      let (filled2, e, h1) =
        >>=-eq-ok (add_relay libraries option filled) (add_relays libraries options) h in
      let added = add_relay-Added option filled e in
      let itself = (str_eq_iff added.url.text added.url.text).1 refl in
      (
        (
          added.url,
          added.parses,
          added.checked,
          add_relays-keeps options filled2 added.url.text h1 (
                ap (λ urls. contains urls added.url.text) added.urls
                ∙ ap (λ same. same || contains filled.urls added.url.text) itself)
              ∙ ap (lookup added.url.text) added.custom_map
              ∙ ap
                  (λ same.
                    if same
                    then some (config_of added.url option)
                    else lookup added.url.text filled.custom_map)
                  itself,
        ),
        add_relays-IsUsed options filled2 h1,
      )

  add_relays-ComesFrom :
      (options : List RelayOptions) (filled : Filled) (u : Bytes) (config : RelayConfig)
      {filled1 : Filled}
      → add_relays libraries options filled ≡ ok filled1
      → lookup u filled1.custom_map ≡ some config
      → ComesFrom u config options ⊎ (lookup u filled.custom_map ≡ some config)
  add_relays-ComesFrom [] filled u config h found =
      inr (ap (λ f. lookup u f.custom_map) (ok-injective h) ∙ found)
  add_relays-ComesFrom (option ∷ options) filled u config {filled1} h found =
      let (filled2, e, h1) =
        >>=-eq-ok (add_relay libraries option filled) (add_relays libraries options) h in
      let added = add_relay-Added option filled e in
      elim (add_relays-ComesFrom options filled2 u config h1 found) [
        | inl from ↦ inl (inr from)
        | inr before ↦
            let at_once = sym (ap (lookup u) added.custom_map) ∙ before in
            elim (Bool-cases (str_eq added.url.text u)) [
              | inl same ↦ inl (
                  inl (
                    added.url,
                    added.parses,
                    (str_eq_iff added.url.text u).0 same,
                    some-injective (
                        sym (
                          ap
                            (λ b.
                              if b
                              then some (config_of added.url option)
                              else lookup u filled.custom_map)
                            same)
                        ∙ at_once),
                  ))
              | inr apart ↦ inr (
                  sym (
                    ap
                      (λ b.
                        if b then some (config_of added.url option) else lookup u filled.custom_map)
                      apart)
                  ∙ at_once)
            ]
      ]

  extended-IsUsed :
      (include_n0_relays : Bool) (relays : RelayMap) (options : List RelayOptions)
      → All (IsUsed relays) options
      → All (IsUsed (extended libraries include_n0_relays relays)) options
  extended-IsUsed include_n0_relays relays [] used = tt
  extended-IsUsed true relays (option ∷ options) ((url, parses, checked, found), used) = (
    (url, parses, checked, lookup-append url.text relays libraries.n0_relays found),
    extended-IsUsed true relays options used,
  )
  extended-IsUsed false relays (option ∷ options) ((url, parses, checked, found), used) = (
    (url, parses, checked, lookup-append url.text relays [] found),
    extended-IsUsed false relays options used,
  )

  from_extended :
      (include_n0_relays : Bool) (relays : RelayMap) (u : Bytes) {config : RelayConfig}
      → lookup u (extended libraries include_n0_relays relays) ≡ some config
      → (lookup u relays ≡ some config)
        ⊎ ((include_n0_relays ≡ true) × (lookup u libraries.n0_relays ≡ some config))
  from_extended true relays u found = elim (lookup-append_inv u relays libraries.n0_relays found) [
    | inl own ↦ inl own
    | inr default ↦ inr (refl, default)
  ]
  from_extended false relays u found = elim (lookup-append_inv u relays [] found) [
    | inl own ↦ inl own
    | inr nothing ↦ absurd (ground arith)
  ]

  -- Where the settings are accepted, every option's relay is in use under its own URL, with its own
  -- valid token and no other; and every relay in use is that of an option, or one of n0's where
  -- these are included: no relay of n0 is used by a configuration that does not include them.
  pub new_lem :
      (include_n0_relays : Bool) (options : List RelayOptions) {settings : RelaySettings}
      → new libraries include_n0_relays options ≡ ok settings
      → All (IsUsed settings.mode) options
        × ((u : Bytes) (config : RelayConfig)
            → lookup u settings.mode ≡ some config
            → ComesFrom u config options
              ⊎ ((include_n0_relays ≡ true) × (lookup u libraries.n0_relays ≡ some config)))
  unfolding new
  new_lem include_n0_relays options {settings} h =
      let (filled, e, h1) = >>=-eq-ok (add_relays libraries options nothing_filled) _ h in
      let (some_relay, h2) =
        bail_if-then (not include_n0_relays && is_empty filled.custom_map) empty_configuration h1 in
      let mode = ap (λ s. s.mode) (ok-injective h2) in
      (
        subst (λ relays. All (IsUsed relays) options) mode
            (extended-IsUsed include_n0_relays filled.custom_map options
              (add_relays-IsUsed options nothing_filled e)),
        λ u config found.
            elim (from_extended include_n0_relays filled.custom_map u
              (ap (lookup u) mode ∙ found)) [
                | inr default ↦ inr default
                | inl own ↦ elim (add_relays-ComesFrom options nothing_filled u config e own) [
                  | inl from ↦ inl from
                  | inr nothing ↦ absurd (ground arith)
                ]
              ],
      )
