-- ===== src/Http/Tests.antt =====
-- Instances of the theorems on relay/src/http.rs: a new relay is sent a message, learns of a peer, and
-- is poked by it.
use certrelay.Prelude.{
  ℕ, suc, leb, true, false, Option, none, some, List, [], ◌∷◌, ◌++◌, String, string_dec_eq, refl,
  arith,
}
use certrelay.Map.{lookup}
use certrelay.Store.Types.{sovereign, Zone, Certificate, Codec}
use certrelay.Store.State.{empty}
use certrelay.Store.Update.Sequence.{IsSound}
use certrelay.Peer.Address.{v4, unspecified}
use certrelay.Peer.Policy.{address}
use certrelay.Peer.State.{new, default_config}
use certrelay.Peer.State.Invariant.{new-Inv}
use certrelay.Handler.{Env}
use certrelay.Sync.Pull.{Peer}
use certrelay.Http.{AppState, Setup, Request, IsRunning}
use certrelay.Retention.{QueryHeat}
use certrelay.Http.Reads.{QueryAnswer, handle_query}
use certrelay.Http.Handlers.{handle_poke}
use certrelay.Http.Handlers.Poke.{Quiet, handle_poke-Quiet}
use certrelay.Http.Peers.{healthy}
use certrelay.Http.Events.{
  Event, posts_message, pokes, syncs, checks, learns, asks_query, sweeps, run_events,
}
use certrelay.Http.Events.Keeps.{run_events-IsRunning}

abbrev root : Zone
root = record {
  canonical = "@bitcoin";
  script_pubkey = 7 ∷ [];
  anchor = 4;
  sovereignty = sovereign;
  records = record { bytes = 1 ∷ []; seq = some 1; sig = none };
  delegate = none;
  commitment = none;
  num_id = none;
}

abbrev cert : Certificate
cert = record {
  subject = "@bitcoin";
  space = some "@bitcoin";
  is_receiptless_root = false;
  witness = [];
}

abbrev codec : Codec
codec = record {
  cert_to_vec = λ _. some (1 ∷ []);
  cert_from_slice = λ _. some cert;
  zone_to_vec = λ z. some (z.anchor ∷ []);
  zone_from_slice = λ _. some root;
  zone_hash = λ b. b;
  is_better_than = λ _ _. none;
  sql_runs = λ _ _. true;
}

abbrev Message : Type 0
Message = List Zone × List Certificate

abbrev env : Env ℕ Message
env = record {
  gov = record { check_key = λ _ n. (true, suc n); retain_recent = λ n. n; shrink_to_fit = λ n. n };
  ver = record {
    spaces = λ _. "@bitcoin" ∷ [];
    verify = λ _ _ m. some m;
    is_single_label = λ _. true;
    addrs = λ _. [];
    hex_encode = λ _. "";
  };
  codec = codec;
}

-- Every URL is that of a host with a public address, and every request is within its limits.
abbrev setup : Setup ℕ ℕ Message ℕ
setup = record {
  puller = record {
    env = env;
    builder = record {
      prove = λ _. some 0;
      build = λ _ _. some (root ∷ [], cert ∷ []);
      runs = λ _. true;
    };
    retention = record {
      max_storage_bytes = 1000;
      entitlement_per_epoch = 2;
      low_water_pct = 90;
      eviction_batch = 2;
      max_batches_per_sweep = 3;
    };
  };
  check_ip = λ _ n. (true, suc n);
  allowlist = [];
  remote_ip_header = none;
  trusted_proxies = [];
  last_ip = λ _. none;
  parse_url = λ _. some (record {
    scheme = "https";
    username = "";
    password = none;
    host = some (address (v4 8 8 8 8));
    port_or_known_default = some 443;
  });
  as_str = λ s. some s;
  lookup_host = λ _ _. some (v4 8 8 8 8 ∷ []);
  from_slice = λ _. some (root ∷ [], cert ∷ []);
  url_len = λ _. 20;
  max_message_size = 100;
  allow_private_peers = true;
  sync = record { max_pages_per_peer = 10; max_page_bytes = 4000 };
  peers_per_round = 3;
  poke_cooldown = 5;
  resolver = record {
    hex_encode = λ _. "";
    space_from_str = λ p. some p;
    subname_from_str = λ h. some h;
    join = λ h p. some h;
    take_receipt = λ c. c;
    root_without_receipt = λ p. cert;
    prove = λ b. some [];
    build = λ b n. some (([], b.certs), []);
  };
  digest = record { as_bytes = λ _. []; sha256 = λ b. b; hex_encode = λ _. "" };
  parse_u32 = λ _. none;
  hex_decode = λ _. none;
  compute_trust_set = λ _. [];
  identity = none;
  ratio_le = λ a b. leb a.stored b.stored;
}

abbrev heat : QueryHeat
heat = record { cap = 10; active = []; prev = [] }

abbrev relay : AppState ℕ ℕ
relay = record {
  handler = record {
    store = empty;
    dev_mode = false;
    space_rate = 0;
    handle_rate = 0;
    msg_count = 1;
  };
  peers = new default_config;
  message_limit = 0;
  poke_limit = 0;
  announce_limit = 0;
  read_limit = 0;
  sync_limit = 0;
  poke_queue = [];
  poke_dirty = false;
  last_synced = [];
  proof_limit = 0;
  query_heat = heat;
  newest_anchor = 0;
  serving = record { anchor_store = []; anchor_sig = none };
}

abbrev request : Request
request = record { addr = v4 9 9 9 9; header = λ _. none }

abbrev poke : Option (String × Option ℕ)
poke = some ("https://a.example", some 7)

abbrev network : String → Peer
network _ = record { summary = some (some 3); answer = λ _ _. none }

-- A message comes, a peer is learnt of and found healthy.
abbrev before_poke : List (ℕ × Event)
before_poke =
    (10, posts_message request true (1 ∷ []))
    ∷ (
      11,
      learns (record { source_ip = unspecified; url = "https://a.example"; capabilities = 1 } ∷ []),
    )
    ∷ (12, checks "https://a.example" healthy)
    ∷ []

abbrev events : List (ℕ × Event)
events =
    before_poke
    ++ ((13, pokes request poke)
        ∷ (14, syncs network (λ us. us))
        ∷ (15, asks_query request (some "@bitcoin") none none true)
        ∷ (16, sweeps (λ _. heat))
        ∷ [])

empty-IsSound : IsSound empty
unfolding lookup
empty-IsSound = record {
  accounts = record { distinct = tt; rows = refl; bytes = refl; counts = λ b. refl };
  sequenced = record { bounded = λ h r e. ground arith; unique = λ g h q r e f same. ground arith };
}

run_events-IsRunning_example : IsRunning (run_events setup relay events)
run_events-IsRunning_example =
    run_events-IsRunning setup relay events empty-IsSound (new-Inv default_config)

abbrev poked : AppState ℕ ℕ
poked = run_events setup relay before_poke

handle_poke-Quiet_example : Quiet setup 13 poke poked (handle_poke setup 13 request poke poked).0
handle_poke-Quiet_example = handle_poke-Quiet setup 13 request poke poked

abbrev answered : AppState ℕ ℕ × QueryAnswer (List Zone × List Certificate)
answered = handle_query setup request (some "@bitcoin") none none true poked
