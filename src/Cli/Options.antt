-- ===== src/Cli/Options.antt =====
-- Which sets of capabilities the daemon accepts.
use notifs_piper.Common.{
  ℕ, ◌+◌, ◌≤◌, ◌<◌, ◌≡◌, ◌≢◌, ◌∙◌, sym, refl, Bool, true, false, ◌&&◌, List, [], ◌∷◌, All, ok,
  arith, >>=-eq-ok, Bool-cases, inl, inr, if◌then◌else◌, ok-injective,
}
use notifs_piper.Text.{Text, text_eq, text_eq_iff}
use notifs_piper.Cli.{
  DaemonArgs, icon_multi, icon_static, capabilities_enumerated, contains, is_icon, opts_checker,
  check_options, capabilities, without,
}

-- How many of the options name an icon.
abbrev pub icons : List Text → ℕ
icons [] = 0
icons (v ∷ vs) = (if is_icon v then 1 else 0) + icons vs

abbrev room : Bool → ℕ
room true = 0
room false = 1

opts_checker-ok :
    (excluded : Bool) (v x : Text)
    → (opts_checker excluded v).1 ≡ ok x
    → (x ≡ v)
      × (contains capabilities_enumerated v ≡ true)
      × ((if is_icon v then 1 else 0) + room (opts_checker excluded v).0 ≤ room excluded)
unfolding opts_checker
opts_checker-ok excluded v x h = ground arith

check_options-ok :
    (excluded : Bool) (os vs : List Text)
    → check_options excluded os ≡ ok vs
    → (vs ≡ os)
      × All (λ v. contains capabilities_enumerated v ≡ true) vs
      × (icons vs ≤ room excluded)
unfolding check_options
check_options-ok excluded [] vs h = rw (← ok-injective h) (refl, tt, omega arith)
check_options-ok excluded (o ∷ os) vs h =
    let (x, hx, h1) = >>=-eq-ok (opts_checker excluded o).1 _ h in
    let (xs, hxs, h2) = >>=-eq-ok (check_options (opts_checker excluded o).0 os) _ h1 in
    let (same, known, one) = opts_checker-ok excluded o x hx in
    let (sames, all, others) = check_options-ok (opts_checker excluded o).0 os xs hxs in
    let rest : icons os ≤ room (opts_checker excluded o).0 = rw sames at others in
    rw (← ok-injective h2)
      (rw (same, sames) (refl, (known, rw sames at all), omega (arith, one, rest)))

icons_pos : (t : Text) (vs : List Text) → is_icon t ≡ true → contains vs t ≡ true → 0 < icons vs
unfolding contains
icons_pos t [] i h = cc
icons_pos t (x ∷ vs) i h = elim (Bool-cases (text_eq x t)) [
  | inl e ↦ let same = (text_eq_iff x t).0 e in rw (same, i) (omega arith)
  | inr e ↦ let h' : contains vs t ≡ true = rw e at h in omega (arith, icons_pos t vs i h')
]

-- Two different icons count twice.
icons_two :
    (s m : Text) (vs : List Text)
    → is_icon s ≡ true
    → is_icon m ≡ true
    → s ≢ m
    → contains vs s ≡ true
    → contains vs m ≡ true
    → 1 < icons vs
unfolding contains
icons_two s m [] i j d h k = cc
icons_two s m (x ∷ vs) i j d h k = elim (Bool-cases (text_eq x s)) [
  | inl e ↦ elim (Bool-cases (text_eq x m)) [
    | inl e' ↦ absurd (d (sym ((text_eq_iff x s).0 e) ∙ (text_eq_iff x m).0 e'))
    | inr e' ↦
        let k' : contains vs m ≡ true = rw e' at k in
        rw ((text_eq_iff x s).0 e, i) (omega (arith, icons_pos m vs j k'))
  ]
  | inr e ↦ elim (Bool-cases (text_eq x m)) [
    | inl e' ↦
        let h' : contains vs s ≡ true = rw e at h in
        rw ((text_eq_iff x m).0 e', j) (omega (arith, icons_pos s vs i h'))
    | inr e' ↦
        let h' : contains vs s ≡ true = rw e at h in
        let k' : contains vs m ≡ true = rw e' at k in omega (arith, icons_two s m vs i j d h' k')
  ]
]

static_icon : is_icon icon_static ≡ true
unfolding is_icon
static_icon = refl

multi_icon : is_icon icon_multi ≡ true
unfolding is_icon
multi_icon = refl

apart : icon_static ≢ icon_multi
apart = λ h. ground arith

accepted_apart :
    (vs : List Text) → icons vs ≤ 1 → (contains vs icon_static && contains vs icon_multi) ≡ false
accepted_apart vs one = elim (Bool-cases (contains vs icon_static)) [
  | inl h ↦ elim (Bool-cases (contains vs icon_multi)) [
    | inl k ↦
        absurd (omega (arith, icons_two icon_static icon_multi vs static_icon multi_icon apart h k))
    | inr k ↦ rw (h, k)
  ]
  | inr h ↦ rw h
]

flag_known :
    All
      (λ v. contains capabilities_enumerated v ≡ true)
      (without icon_static capabilities_enumerated)
unfolding contains
flag_known = (refl, (refl, (refl, (refl, (refl, (refl, (refl, (refl, (refl, tt)))))))))

flag_apart :
    (contains (without icon_static capabilities_enumerated) icon_static
      && contains (without icon_static capabilities_enumerated) icon_multi)
    ≡ false
unfolding contains
flag_apart = refl

-- If each option was accepted by `opts_checker`, the capabilities that the daemon announces are all
-- among the enumerated ones, and `icon-static` and `icon-multi` are not both among them, whether
-- the options are taken or `--all` is given.
pub capabilities_apart :
    (args : DaemonArgs) (vs : List Text)
    → check_options false args.options ≡ ok vs
    → All (λ v. contains capabilities_enumerated v ≡ true) (capabilities args)
      × ((contains (capabilities args) icon_static && contains (capabilities args) icon_multi)
          ≡ false)
unfolding capabilities
capabilities_apart args vs h =
    let (same, known, one) = check_options-ok false args.options vs h in
    elim (Bool-cases args.all) [
      | inl e ↦ rw e (flag_known, flag_apart)
      | inr e ↦ rw (e, ← same) (known, accepted_apart vs one)
    ]
