-- ===== src/Tests/Fixtures.antt =====
-- A cluster with one check, one drifted Pod and one webhook, over a world without state.
use kube_drift.Common.{true, false, none, some, [], ◌∷◌, text}
use kube_drift.Errors.{Result, ok, err, external}
use kube_drift.Machine.{Machine, pure, ◌>>=◌}
use kube_drift.Libraries.{Kube, Os, Git, KubeDiff, Http, Crypto, ConfigMap, Resource, DiffResult}
use kube_drift.Api
use kube_drift.Api.{DriftCheck, DriftedResource, DriftSummary, config_map, generic, pos}
use kube_drift.Source.Values.{end}
use kube_drift.Source.Charts.{Charts}
use kube_drift.Source.Load.{Backends}
use kube_drift.Controller.{World, Reconciler}

abbrev pub S : Type 0
S = Unit {0}

abbrev pub drifted : DriftedResource
drifted = record {
  api_version = text "v1";
  kind = text "Pod";
  name = text "web";
  namespace = text "a";
  status = text "changed";
}

abbrev pub added : DriftedResource
added = record drifted { name = text "db"; status = text "new" }

abbrev pub result : DiffResult
result = record {
  api_version = text "v1";
  kind = text "Pod";
  name = text "web";
  namespace = text "a";
  status = text "changed";
}

abbrev pub matching : DiffResult
matching = record result { name = text "ok"; status = text "unchanged" }

abbrev pub manifests : ConfigMap
manifests = record {
  name = text "cm";
  namespace = text "a";
  texts = (text "b", text "kind: B") ∷ (text "a", text "kind: A") ∷ [];
  binaries = (text "c", text "kind: C") ∷ [];
}

abbrev pub webhook : Api.Webhook
webhook = record { type = generic; url = text "http://hook"; url_secret_ref = none }

abbrev pub check : DriftCheck
check = record {
  name = text "check";
  namespace = text "a";
  generation = 2;
  resource_version = text "7";
  spec = record {
    source = record {
      type = config_map;
      git = none;
      config_map = some (record { name = text "cm"; namespace = []; key = [] });
      helm = none;
      kustomize = none;
    };
    target = record { namespaces = []; label_selector = none };
    interval = pos 60;
    notify = some (record { webhooks = webhook ∷ [] });
  };
  status = record {
    last_checked_at = none;
    drifted_resources = drifted ∷ [];
    summary = record { changed = 1; new = 0; deleted = 0; unchanged = 1 };
    observed_generation = 1;
    last_notified_hash = [];
    conditions = [];
  };
}

abbrev pub kube : Kube S
kube = record {
  is_not_found = λ e. false;
  is_forbidden = λ e. false;
  is_unauthorized = λ e. false;
  get_drift_check = λ at s. (ok check, s);
  get_config_map = λ at s. (ok manifests, s);
  get_secret = λ at s. (ok (record { entries = [] }), s);
  update_status = λ dc s. (ok dc, s);
  emit_event = λ t r m s. s;
  now = λ s. (100, s);
  set_status_condition = λ cs c. c ∷ [];
  label_selector_as_selector = λ ls. ok (λ labels. true);
}

abbrev pub refused : {A : Type 0} → Result A
refused = err (external [] (text "refused"))

abbrev pub os : Os S
os = record {
  mkdir_temp = λ p s. (ok (text "/tmp/1"), s);
  remove_all = λ p s. (ok tt, s);
  create_temp = λ p s. (ok (text "/tmp/2"), s);
  write_file = λ f t s. (ok tt, s);
  close_file = λ f s. (ok tt, s);
  remove_file = λ f s. (ok tt, s);
  read_file = λ f s. (refused, s);
  secure_join = λ root sub s. (ok root, s);
}

abbrev pub git : Git S
git = record {
  plain_clone = λ dir url am s. (ok 1, s);
  resolve_revision = λ repo rev s. (ok (text "abc"), s);
  worktree = λ repo s. (ok 2, s);
  checkout = λ wt hash s. (ok tt, s);
  new_public_keys = λ user key pass. ok 3;
  known_hosts = λ f s. (ok 4, s);
}

abbrev pub charts : Charts S
charts = record {
  load_chart = λ dir s. (refused, s);
  read_values = λ t. ok end;
  process_dependencies = λ ch vals. ok (ch, vals);
  to_render_values = λ ch vals name ns. ok vals;
  render = λ ch vals. ok [];
  sort_manifests = λ files. ok [];
  write_repo_file = λ es f s. (ok tt, s);
  new_registry_client = λ f. ok 5;
  update = λ dir config cache client s. (ok tt, s);
  cancelled = λ s. (none, s);
  kustomize_run = λ dir s. (refused, s);
  as_yaml = λ h. refused;
}

abbrev pub resource : Resource
resource = record {
  api_version = text "v1";
  kind = text "Pod";
  name = text "web";
  namespace = text "a";
  object = none;
}

abbrev pub diff : KubeDiff S
diff = record {
  bytes_source_load = λ t. ok (resource ∷ []);
  file_source_load = λ p s. (ok (resource ∷ []), s);
  engine_run = λ load. load >>= λ rs. pure (result ∷ matching ∷ []);
}

abbrev pub crypto : Crypto
crypto = record { sha256 = λ t. 17 ∷ [] }

abbrev pub backends : Backends S
backends = record { os = os; git = git; diff = diff; charts = charts }

abbrev pub http : Http S
http = record {
  default_client = record { timeout = 0 };
  new_request =
      λ method url body. ok (record { method = method; url = url; content_type = []; body = body });
  do_request = λ client req s. (ok 204, s);
}

abbrev pub world : World S
world = record {
  kube = kube;
  gauges = record {
    set = λ n ns st v s. s;
    delete_partial_match = λ n ns s. s;
    value = λ n ns st s. none;
  };
  backends = backends;
  http = http;
  crypto = crypto;
}

abbrev pub reconciler : Reconciler S
reconciler = record {
  has_fetcher = true;
  has_metrics = true;
  git_cloner = none;
  notifier = none;
  has_recorder = true;
}

abbrev pub start : Machine S
start = record { world = tt; calls = [] }
