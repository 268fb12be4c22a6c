-- ===== src/DeepCopy/Values.antt =====
-- What the API's objects in memory stand for, and all the addresses in them, type by type, beside the
-- functions of api/v1alpha1/zz_generated.deepcopy.go. The TypeMeta and what the program
-- does not read of an ObjectMeta are left out.
use kube_drift.Common.{ℕ, Option, List, Text}
use kube_drift.Api
use kube_drift.DeepCopy.{Kind, Meta, Library}
use kube_drift.DeepCopy.Kinds.{flat, pointer_value, pointer, slice_value, slice, pair}
use kube_drift.DeepCopy.Objects.{
  GitSource, KustomizeSource, Webhook, NotifySpec, HelmSource, Source, Target, DriftCheckSpec,
  DriftCheckStatus, DriftCheck, DriftCheckList,
}
use kube_drift.DeepCopy.Copies.{
  copy_git_source, copy_kustomize_source, copy_webhook, copy_notify_spec, copy_helm_source,
  copy_source, copy_target, copy_drift_check_spec, copy_drift_check_status, copy_drift_check,
  copy_drift_check_list,
}

abbrev pub auths : Kind (Option Api.GitAuth)
auths = pointer (flat Api.GitAuth)

abbrev pub git_source_kind : Kind Api.GitSource
git_source_kind = record {
  Object = GitSource;
  value = λ s. record { url = s.url; ref = s.ref; path = s.path; auth = auths.value s.auth };
  addresses = λ s. auths.addresses s.auth;
  deep_copy = copy_git_source;
}

abbrev pub kustomize_source_kind : Kind Api.KustomizeSource
kustomize_source_kind = record {
  Object = KustomizeSource;
  value = λ s. record { git = git_source_kind.value s.git };
  addresses = λ s. git_source_kind.addresses s.git;
  deep_copy = copy_kustomize_source;
}

abbrev pub secret_keys : Kind (Option Api.SecretKeyRef)
secret_keys = pointer (flat Api.SecretKeyRef)

abbrev pub webhook_kind : Kind Api.Webhook
webhook_kind = record {
  Object = Webhook;
  value = λ w. record {
    type = w.type;
    url = w.url;
    url_secret_ref = secret_keys.value w.url_secret_ref;
  };
  addresses = λ w. secret_keys.addresses w.url_secret_ref;
  deep_copy = copy_webhook;
}

abbrev pub webhooks_kind : Kind (List Api.Webhook)
webhooks_kind = slice webhook_kind

abbrev pub notify_spec_kind : Kind Api.NotifySpec
notify_spec_kind = record {
  Object = NotifySpec;
  value = λ s. record { webhooks = webhooks_kind.value s.webhooks };
  addresses = λ s. webhooks_kind.addresses s.webhooks;
  deep_copy = copy_notify_spec;
}

abbrev pub texts : Kind (List Text)
texts = slice (flat Text)

-- The fields of a type that have addresses, in the order in which they are copied.
module _ (L : Library) where
  abbrev pub helm_fields : Kind (Api.GitSource × (Option Text × List Text))
  helm_fields = pair git_source_kind (pair (pointer L.json) texts)

  abbrev pub helm_source_kind : Kind Api.HelmSource
  helm_source_kind = record {
    Object = HelmSource L;
    value = λ s. record {
      git = git_source_kind.value s.git;
      release_name = s.release_name;
      namespace = s.namespace;
      values = pointer_value L.json s.values;
      values_files = texts.value s.values_files;
      dependency_build = s.dependency_build;
    };
    addresses = λ s. helm_fields.addresses (s.git, (s.values, s.values_files));
    deep_copy = copy_helm_source L;
  }

  abbrev pub source_fields : Kind (
      Option Api.GitSource
      × (Option Api.ConfigMapSource × (Option Api.HelmSource × Option Api.KustomizeSource)))
  source_fields = pair (pointer git_source_kind) (
      pair (pointer (flat Api.ConfigMapSource))
        (pair (pointer helm_source_kind) (pointer kustomize_source_kind)))

  abbrev pub source_kind : Kind Api.Source
  source_kind = record {
    Object = Source L;
    value = λ s. record {
      type = s.type;
      git = pointer_value git_source_kind s.git;
      config_map = pointer_value (flat Api.ConfigMapSource) s.config_map;
      helm = pointer_value helm_source_kind s.helm;
      kustomize = pointer_value kustomize_source_kind s.kustomize;
    };
    addresses = λ s. source_fields.addresses (s.git, (s.config_map, (s.helm, s.kustomize)));
    deep_copy = copy_source L;
  }

  abbrev pub target_fields : Kind (List Text × Option Api.LabelSelector)
  target_fields = pair texts (pointer L.label_selector)

  abbrev pub target_kind : Kind Api.Target
  target_kind = record {
    Object = Target L;
    value = λ t. record {
      namespaces = texts.value t.namespaces;
      label_selector = pointer_value L.label_selector t.label_selector;
    };
    addresses = λ t. target_fields.addresses (t.namespaces, t.label_selector);
    deep_copy = copy_target L;
  }

  abbrev pub spec_fields : Kind (Api.Source × (Api.Target × Option Api.NotifySpec))
  spec_fields = pair source_kind (pair target_kind (pointer notify_spec_kind))

  abbrev pub drift_check_spec_kind : Kind Api.DriftCheckSpec
  drift_check_spec_kind = record {
    Object = DriftCheckSpec L;
    value = λ s. record {
      source = source_kind.value s.source;
      target = target_kind.value s.target;
      interval = s.interval;
      notify = pointer_value notify_spec_kind s.notify;
    };
    addresses = λ s. spec_fields.addresses (s.source, (s.target, s.notify));
    deep_copy = copy_drift_check_spec L;
  }

  abbrev pub status_fields : Kind (Option ℕ × (List Api.DriftedResource × List Api.Condition))
  status_fields =
      pair (pointer L.time) (pair (slice (flat Api.DriftedResource)) (slice L.condition))

  abbrev pub drift_check_status_kind : Kind Api.DriftCheckStatus
  drift_check_status_kind = record {
    Object = DriftCheckStatus L;
    value = λ s. record {
      last_checked_at = pointer_value L.time s.last_checked_at;
      drifted_resources = slice_value (flat Api.DriftedResource) s.drifted_resources;
      summary = s.summary;
      observed_generation = s.observed_generation;
      last_notified_hash = s.last_notified_hash;
      conditions = slice_value L.condition s.conditions;
    };
    addresses =
        λ s. status_fields.addresses (s.last_checked_at, (s.drifted_resources, s.conditions));
    deep_copy = copy_drift_check_status L;
  }

  abbrev pub drift_check_fields : Kind (Meta × (Api.DriftCheckSpec × Api.DriftCheckStatus))
  drift_check_fields = pair L.object_meta (pair drift_check_spec_kind drift_check_status_kind)

  abbrev pub drift_check_kind : Kind Api.DriftCheck
  drift_check_kind = record {
    Object = DriftCheck L;
    value = λ c.
        let meta = L.object_meta.value c.object_meta in
        record {
          name = meta.name;
          namespace = meta.namespace;
          generation = meta.generation;
          resource_version = meta.resource_version;
          spec = drift_check_spec_kind.value c.spec;
          status = drift_check_status_kind.value c.status;
        };
    addresses = λ c. drift_check_fields.addresses (c.object_meta, (c.spec, c.status));
    deep_copy = copy_drift_check L;
  }

  abbrev pub list_fields : Kind (Text × List Api.DriftCheck)
  list_fields = pair L.list_meta (slice drift_check_kind)

  abbrev pub drift_check_list_kind : Kind (Text × List Api.DriftCheck)
  drift_check_list_kind = record {
    Object = DriftCheckList L;
    value = λ l. list_fields.value (l.list_meta, l.items);
    addresses = λ l. list_fields.addresses (l.list_meta, l.items);
    deep_copy = copy_drift_check_list L;
  }
