-- ===== src/Main/Flags.antt =====
-- What the options of src/main.cpp come to, by the list of options alone.
use dpdk_itch5_feedhandler.Prelude.{
  ℕ, ◌≡◌, refl, List, [], ◌∷◌, Bool, true, false, not, ◌&&◌, ◌||◌, Option, none, some, Bytes, ◌==◌,
  if◌then◌else◌, subst, arith,
}
use dpdk_itch5_feedhandler.Mold.Session.{is_empty}
use dpdk_itch5_feedhandler.Main.{
  Options, Parsed, Input, go, exit, thrown, apply_option, parse_options, choose_input, main,
  default_options, runs, returns, throws, itch, pcap, live,
}

-- Some option of the list is `opt`.
abbrev pub given : ℕ → List (ℕ × Bytes) → Bool
given opt [] = false
given opt ((o, a) ∷ events) = o == opt || given opt events

-- The argument of the last option `opt`, or what stood before.
abbrev pub last_argument : ℕ → Bytes → List (ℕ × Bytes) → Bytes
last_argument opt before [] = before
last_argument opt before ((o, a) ∷ events) =
    last_argument opt (if o == opt then a else before) events

-- What a number sets, or what stood before where there is none.
abbrev number_or : {I N : Type 0} → (I → N) → N → Option I → N
number_or set before none = before
number_or set before (some n) = set n

-- What the last option `opt` sets with the number of its argument, or what stood before.
abbrev pub last_number :
    {I N : Type 0} → (Bytes → Option I) → ℕ → (I → N) → N → List (ℕ × Bytes) → N
last_number stoi opt set before [] = before
last_number stoi opt set before ((o, a) ∷ events) =
    last_number stoi opt set (if o == opt then number_or set before (stoi a) else before) events

-- What the options say of each field, from what it was before.
pub record Says {I : Type 0} (stoi : Bytes → Option I) (to_uint16 : I → ℕ) (before : Options I)
    (events : List (ℕ × Bytes)) (o : Options I) : Type 0 where
  pub pcap_file : o.pcap_file ≡ last_argument b'p' before.pcap_file events
  pub itch_file : o.itch_file ≡ last_argument b'i' before.itch_file events
  pub live_mode : o.live_mode ≡ (before.live_mode || given b'P' events)
  pub use_pcap : o.config.use_pcap ≡ (before.config.use_pcap || given b'p' events)
  pub show_stats : o.show_stats ≡ (before.show_stats || given b's' events)
  pub verbose : o.verbose ≡ (before.verbose || given b'v' events)
  pub pin_to_core : o.config.pin_to_core ≡ (before.config.pin_to_core && not (given b'n' events))
  pub port_id : o.config.port_id ≡ last_number stoi b'P' to_uint16 before.config.port_id events
  pub producer_core_id :
      o.config.producer_core_id
      ≡ last_number stoi b'c' (λ n. n) before.config.producer_core_id events
  pub consumer_core_id :
      o.config.consumer_core_id
      ≡ last_number stoi b'C' (λ n. n) before.config.consumer_core_id events
  pub others :
      (o.config.pcap_file ≡ before.config.pcap_file)
      × (o.config.promiscuous ≡ before.config.promiscuous)

module _ {I : Type 0} (stoi : Bytes → Option I) (to_uint16 : I → ℕ) where
  apply_option-Says :
      (o o' : Options I) (opt : ℕ) (optarg : Bytes)
      → apply_option stoi to_uint16 o opt optarg ≡ go o'
      → Says stoi to_uint16 o ((opt, optarg) ∷ []) o'
  unfolding apply_option
  apply_option-Says o o' opt optarg e = ground arith

  Says-more :
      (o o' r : Options I) (opt : ℕ) (optarg : Bytes) (events : List (ℕ × Bytes))
      → Says stoi to_uint16 o ((opt, optarg) ∷ []) o'
      → Says stoi to_uint16 o' events r
      → Says stoi to_uint16 o ((opt, optarg) ∷ events) r
  Says-more o o' r opt optarg events a b = ground arith

  -- Where the options are all accepted, the files are the arguments of the last `-p` and the last
  -- `-i`, the port and the cores the numbers of the last `-P`, `-c` and `-C`, and each flag is set
  -- exactly if its option is given, wherever it stands.
  pub parse_options-Says :
      (o r : Options I) (events : List (ℕ × Bytes))
      → parse_options stoi to_uint16 o events ≡ go r
      → Says stoi to_uint16 o events r
  unfolding parse_options
  parse_options-Says o r [] e = ground arith
  parse_options-Says o r ((opt, optarg) ∷ events) e =
      after_first (λ o'. parse_options-Says o' r events) (apply_option stoi to_uint16 o opt optarg)
        refl e
    where
      after_first :
          ((o' : Options I)
            → parse_options stoi to_uint16 o' events ≡ go r
            → Says stoi to_uint16 o' events r)
          → (p : Parsed I) → apply_option stoi to_uint16 o opt optarg ≡ p
          → (elim p [
            | go o' ↦ parse_options stoi to_uint16 o' events
            | exit code ↦ exit code
            | thrown ↦ thrown
          ])
            ≡ go r
          → Says stoi to_uint16 o ((opt, optarg) ∷ events) r
      after_first later (go o') first rest =
          Says-more o o' r opt optarg events (apply_option-Says o o' opt optarg first)
            (later o' rest)
      after_first later (exit code) first rest = absurd (cc rest)
      after_first later thrown first rest = absurd (cc rest)

  choose_input-runs :
      (o r : Options I) (input : Input)
      → choose_input stoi to_uint16 o ≡ runs input r
      → (o ≡ r)
        × (input ≡ (
            if not (is_empty o.itch_file)
            then itch o.itch_file
            else if not (is_empty o.pcap_file)
            then pcap o.pcap_file
            else live))
        × (input ≡ live → o.live_mode ≡ true)
  unfolding choose_input
  choose_input-runs o r input e = (ground arith, ground arith, ground arith)

  -- Where `main` goes on to run, its files, its port and its two cores are the arguments of the last
  -- options that set them, or the defaults, each flag is set exactly if its option is given, and the
  -- other fields are the defaults; and what it runs is the ITCH file, if its name is
  -- not empty, or else the PCAP file, or else the live port, for which `-P` was then given.
  pub main-Says :
      (int : ℕ → I) (r : Options I) (input : Input) (events : List (ℕ × Bytes))
      → main stoi to_uint16 (default_options int) events ≡ runs input r
      → let itch_file = last_argument b'i' [] events in
        let pcap_file = last_argument b'p' [] events in
        Says stoi to_uint16 (default_options int) events r
        × (input ≡ (
            if not (is_empty itch_file)
            then itch itch_file
            else if not (is_empty pcap_file)
            then pcap pcap_file
            else live))
        × (input ≡ live → given b'P' events ≡ true)
  unfolding main
  main-Says int r input events e =
      after_options (parse_options stoi to_uint16 (default_options int) events) refl e
    where
      after_options :
          (p : Parsed I)
          → parse_options stoi to_uint16 (default_options int) events ≡ p
          → (elim p [
            | go o' ↦ choose_input stoi to_uint16 o'
            | exit code ↦ returns code
            | thrown ↦ throws
          ])
            ≡ runs input r
          → Says stoi to_uint16 (default_options int) events r
            × (input ≡ (
                if not (is_empty (last_argument b'i' [] events))
                then itch (last_argument b'i' [] events)
                else if not (is_empty (last_argument b'p' [] events))
                then pcap (last_argument b'p' [] events)
                else live))
            × (input ≡ live → given b'P' events ≡ true)
      after_options (go o) parsed chosen =
          let (same, which, on) = choose_input-runs o r input chosen in
          let says = parse_options-Says (default_options int) o events parsed in
          (
            subst (λ o. Says stoi to_uint16 (default_options int) events o) same says,
            rw (← says.itch_file, ← says.pcap_file) which,
            λ l. rw (← says.live_mode) (on l),
          )
      after_options (exit code) parsed chosen = absurd (cc chosen)
      after_options thrown parsed chosen = absurd (cc chosen)
