-- ===== src/Main.antt =====
-- The command line of src/main.cpp. `getopt_long` is the C library's: what it returns is a list of
-- option characters, each with its argument (empty where it takes none), `?` standing for an option
-- that it does not know. `stoi` reads a number of a type `I` or throws, which is `none`.
pub mod Flags
pub mod Run
use dpdk_itch5_feedhandler.Prelude.{
  ℕ, List, [], ◌∷◌, Bool, true, false, not, ◌&&◌, Option, none, some, Bytes, ◌==◌, if◌then◌else◌,
}
use dpdk_itch5_feedhandler.Mold.Session.{is_empty}
use dpdk_itch5_feedhandler.Dpdk.Config.{Config, default_config}

-- The configuration and `main`'s own variables.
pub record Options (I : Type 0) : Type 0 where
  pub config : Config I
  pub pcap_file : Bytes
  pub itch_file : Bytes
  pub show_stats : Bool
  pub verbose : Bool
  pub live_mode : Bool

abbrev pub default_options : {I : Type 0} → (ℕ → I) → Options I
default_options int = record {
  config = default_config int;
  pcap_file = [];
  itch_file = [];
  show_stats = false;
  verbose = false;
  live_mode = false;
}

-- The process goes on with its options, returns from `main`, or ends by an exception of `stoi`.
pub data Parsed (I : Type 0) : Type 0 where
  go : Options I → Parsed I
  exit : ℕ → Parsed I
  thrown : Parsed I

-- What `main` runs.
pub data Input : Type 0 where
  itch : Bytes → Input
  pcap : Bytes → Input
  live : Input

pub data Plan (I : Type 0) : Type 0 where
  runs : Input → Options I → Plan I
  returns : ℕ → Plan I
  throws : Plan I

-- `to_uint16` is the cast to `uint16_t`.
module _ {I : Type 0} (stoi : Bytes → Option I) (to_uint16 : I → ℕ) where
  -- The number that an option sets.
  abbrev with_number : Bytes → (I → Options I) → Parsed I
  with_number optarg set = elim (stoi optarg) [ none ↦ thrown | some n ↦ go (set n) ]

  -- One round of the `switch`.
  unfoldable pub apply_option : Options I → ℕ → Bytes → Parsed I
  apply_option o opt optarg =
      if opt == b'p'
      then go (record o { pcap_file = optarg; config = record o.config { use_pcap = true } })
      else if opt == b'i'
      then go (record o { itch_file = optarg })
      else if opt == b'P'
      then with_number optarg
          (λ n. record o { config = record o.config { port_id = to_uint16 n }; live_mode = true })
      else if opt == b'c'
      then with_number optarg (λ n. record o { config = record o.config { producer_core_id = n } })
      else if opt == b'C'
      then with_number optarg (λ n. record o { config = record o.config { consumer_core_id = n } })
      else if opt == b'n'
      then go (record o { config = record o.config { pin_to_core = false } })
      else if opt == b's'
      then go (record o { show_stats = true })
      else if opt == b'v'
      then go (record o { verbose = true })
      else if opt == b'h'
      then exit 0
      else exit 1

  -- The `while` loop over the options.
  unfoldable pub parse_options : Options I → List (ℕ × Bytes) → Parsed I
  parse_options o [] = go o
  parse_options o ((opt, optarg) ∷ events) = elim (apply_option o opt optarg) [
    | go o' ↦ parse_options o' events
    | exit code ↦ exit code
    | thrown ↦ thrown
  ]

  -- An ITCH file goes before a PCAP file, and a file before the live port; with none, `main` fails.
  unfoldable pub choose_input : Options I → Plan I
  choose_input o =
      if is_empty o.pcap_file && is_empty o.itch_file && not o.live_mode
      then returns 1
      else if not (is_empty o.itch_file)
      then runs (itch o.itch_file) o
      else if not (is_empty o.pcap_file)
      then runs (pcap o.pcap_file) o
      else runs live o

  unfoldable pub main : Options I → List (ℕ × Bytes) → Plan I
  main o events = elim (parse_options o events) [
    | go o' ↦ choose_input o'
    | exit code ↦ returns code
    | thrown ↦ throws
  ]
