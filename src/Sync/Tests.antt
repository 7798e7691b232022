-- ===== src/Sync/Tests.antt =====
-- Instances of the theorems on relay/src/sync.rs: a relay without rows pulls one page with a root zone.
use certrelay.Prelude.{ℕ, suc, refl, true, false, none, some, List, [], ◌∷◌, string_dec_eq, arith}
use certrelay.Map.{lookup}
use certrelay.Store.Types.{sovereign, Zone, Certificate, Codec}
use certrelay.Store.State.{empty}
use certrelay.Store.Update.Sequence.{IsSound}
use certrelay.Handler.{Env, Handler}
use certrelay.Sync.{SyncRecord, SyncConfig, Puller}
use certrelay.Sync.Pull.{Peer, sync_with_peer}
use certrelay.Sync.Pull.Watermark.{Synced, sync_with_peer-Synced}

abbrev root : Zone
root = record {
  canonical = "@bitcoin";
  script_pubkey = 7 ∷ [];
  anchor = 4;
  sovereignty = sovereign;
  records = record { bytes = 1 ∷ []; seq = some 1; sig = none };
  delegate = none;
  commitment = none;
  num_id = none;
}

abbrev cert : Certificate
cert = record {
  subject = "@bitcoin";
  space = some "@bitcoin";
  is_receiptless_root = false;
  witness = [];
}

abbrev codec : Codec
codec = record {
  cert_to_vec = λ _. some (1 ∷ []);
  cert_from_slice = λ _. some cert;
  zone_to_vec = λ z. some (z.anchor ∷ []);
  zone_from_slice = λ _. some root;
  zone_hash = λ b. b;
  is_better_than = λ _ _. none;
  sql_runs = λ _ _. true;
}

abbrev Message : Type 0
Message = List Zone × List Certificate

-- Every message is verified, and every limiter allows every check.
abbrev env : Env ℕ Message
env = record {
  gov = record { check_key = λ _ n. (true, suc n); retain_recent = λ n. n; shrink_to_fit = λ n. n };
  ver = record {
    spaces = λ _. [];
    verify = λ _ _ m. some m;
    is_single_label = λ _. true;
    addrs = λ _. [];
    hex_encode = λ _. "";
  };
  codec = codec;
}

-- Every chain proof is given, and the message is the root zone.
abbrev puller : Puller ℕ Message ℕ
puller = record {
  env = env;
  builder = record {
    prove = λ _. some 0;
    build = λ _ _. some (root ∷ [], cert ∷ []);
    runs = λ _. true;
  };
  retention = record {
    max_storage_bytes = 1000;
    entitlement_per_epoch = 2;
    low_water_pct = 90;
    eviction_batch = 2;
    max_batches_per_sweep = 3;
  };
}

abbrev handler : Handler ℕ
handler = record { store = empty; dev_mode = false; space_rate = 0; handle_rate = 0; msg_count = 1 }

abbrev records : List SyncRecord
records =
    record {
      handle = "@bitcoin";
      epoch_height = 0;
      seq = 1;
      delegate_seq = 0;
      cert = 1 ∷ [];
      zone = 4 ∷ [];
    }
    ∷ []

-- One page up to cursor 5, where the summary says 3.
abbrev peer : Peer
peer = record {
  summary = some (some 3);
  answer = λ _ _. some (record {
    content_length = none;
    body_len = 100;
    page = some (record { records = records; next_cursor = some (some 5) });
  });
}

abbrev config : SyncConfig
config = record { max_pages_per_peer = 10; max_page_bytes = 4000 }

empty-IsSound : IsSound empty
unfolding lookup
empty-IsSound = record {
  accounts = record { distinct = tt; rows = refl; bytes = refl; counts = λ b. refl };
  sequenced = record { bounded = λ h r e. ground arith; unique = λ g h q r e f same. ground arith };
}

sync_with_peer-Synced_example :
    Synced "https://a.example" peer empty
      (sync_with_peer puller config peer 10 "https://a.example" handler).0
sync_with_peer-Synced_example =
    sync_with_peer-Synced puller config peer 10 "https://a.example" handler empty-IsSound
