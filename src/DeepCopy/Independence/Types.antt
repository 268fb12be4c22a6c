-- ===== src/DeepCopy/Independence/Types.antt =====
-- Each function of api/v1alpha1/zz_generated.deepcopy.go makes a deep copy, if those of the libraries
-- do.
use kube_drift.Common.{Text}
use kube_drift.Api
use kube_drift.DeepCopy.{pure, ◌>>=◌, Library}
use kube_drift.DeepCopy.Copies.{
  copy_git_source, copy_kustomize_source, copy_webhook, copy_notify_spec, copy_helm_source,
  copy_source, copy_target, copy_drift_check_spec, copy_drift_check_status, copy_drift_check,
  copy_drift_check_list,
}
use kube_drift.DeepCopy.Values.{
  drift_check_list_kind, drift_check_spec_kind, drift_check_status_kind, drift_check_kind,
  git_source_kind, helm_source_kind, kustomize_source_kind, notify_spec_kind, source_kind,
  target_kind, webhook_kind,
}
use kube_drift.DeepCopy.Independence.{
  IsDeep, flat-IsDeep, pointer-IsDeep, slice-IsDeep, pair-IsDeep,
}

pub git_source_kind-IsDeep : IsDeep git_source_kind
unfolding pure ◌>>=◌ copy_git_source
git_source_kind-IsDeep =
    let d = pointer-IsDeep (flat-IsDeep Api.GitAuth) in
    record {
      grows = λ s. d.grows s.auth;
      same = λ s n i. record { url = s.url; ref = s.ref; path = s.path; auth = d.same s.auth n i };
      fresh = λ s. d.fresh s.auth;
      distinct = λ s. d.distinct s.auth;
    }

pub kustomize_source_kind-IsDeep : IsDeep kustomize_source_kind
unfolding pure ◌>>=◌ copy_kustomize_source
kustomize_source_kind-IsDeep =
    let d = git_source_kind-IsDeep in
    record {
      grows = λ s. d.grows s.git;
      same = λ s n i. record { git = d.same s.git n i };
      fresh = λ s. d.fresh s.git;
      distinct = λ s. d.distinct s.git;
    }

pub webhook_kind-IsDeep : IsDeep webhook_kind
unfolding pure ◌>>=◌ copy_webhook
webhook_kind-IsDeep =
    let d = pointer-IsDeep (flat-IsDeep Api.SecretKeyRef) in
    record {
      grows = λ w. d.grows w.url_secret_ref;
      same = λ w n i. record {
        type = w.type;
        url = w.url;
        url_secret_ref = d.same w.url_secret_ref n i;
      };
      fresh = λ w. d.fresh w.url_secret_ref;
      distinct = λ w. d.distinct w.url_secret_ref;
    }

pub notify_spec_kind-IsDeep : IsDeep notify_spec_kind
unfolding pure ◌>>=◌ copy_notify_spec
notify_spec_kind-IsDeep =
    let d = slice-IsDeep webhook_kind-IsDeep in
    record {
      grows = λ s. d.grows s.webhooks;
      same = λ s n i. record { webhooks = d.same s.webhooks n i };
      fresh = λ s. d.fresh s.webhooks;
      distinct = λ s. d.distinct s.webhooks;
    }

-- The `DeepCopyInto` of each of the libraries' types is a deep copy.
pub record LibraryIsDeep (L : Library) : Type 0 where
  pub json : IsDeep L.json
  pub label_selector : IsDeep L.label_selector
  pub time : IsDeep L.time
  pub condition : IsDeep L.condition
  pub object_meta : IsDeep L.object_meta
  pub list_meta : IsDeep L.list_meta

module _ (L : Library) (deep : LibraryIsDeep L) where
  pub helm_source_kind-IsDeep : IsDeep (helm_source_kind L)
  unfolding pure ◌>>=◌ copy_helm_source
  helm_source_kind-IsDeep =
      let d =
        pair-IsDeep git_source_kind-IsDeep
          (pair-IsDeep (pointer-IsDeep deep.json) (slice-IsDeep (flat-IsDeep Text))) in
      record {
        grows = λ s. d.grows (s.git, (s.values, s.values_files));
        same = λ s n i.
            let v = d.same (s.git, (s.values, s.values_files)) n i in
            record {
              git = v.0;
              release_name = s.release_name;
              namespace = s.namespace;
              values = v.1.0;
              values_files = v.1.1;
              dependency_build = s.dependency_build;
            };
        fresh = λ s. d.fresh (s.git, (s.values, s.values_files));
        distinct = λ s. d.distinct (s.git, (s.values, s.values_files));
      }

  pub source_kind-IsDeep : IsDeep (source_kind L)
  unfolding pure ◌>>=◌ copy_source
  source_kind-IsDeep =
      let d = pair-IsDeep (pointer-IsDeep git_source_kind-IsDeep) (
        pair-IsDeep (pointer-IsDeep (flat-IsDeep Api.ConfigMapSource)) (
          pair-IsDeep (pointer-IsDeep helm_source_kind-IsDeep)
            (pointer-IsDeep kustomize_source_kind-IsDeep))) in
      record {
        grows = λ s. d.grows (s.git, (s.config_map, (s.helm, s.kustomize)));
        same = λ s n i.
            let v = d.same (s.git, (s.config_map, (s.helm, s.kustomize))) n i in
            record {
              type = s.type;
              git = v.0;
              config_map = v.1.0;
              helm = v.1.1.0;
              kustomize = v.1.1.1;
            };
        fresh = λ s. d.fresh (s.git, (s.config_map, (s.helm, s.kustomize)));
        distinct = λ s. d.distinct (s.git, (s.config_map, (s.helm, s.kustomize)));
      }

  pub target_kind-IsDeep : IsDeep (target_kind L)
  unfolding pure ◌>>=◌ copy_target
  target_kind-IsDeep =
      let d = pair-IsDeep (slice-IsDeep (flat-IsDeep Text)) (pointer-IsDeep deep.label_selector) in
      record {
        grows = λ t. d.grows (t.namespaces, t.label_selector);
        same = λ t n i.
            let v = d.same (t.namespaces, t.label_selector) n i in
            record { namespaces = v.0; label_selector = v.1 };
        fresh = λ t. d.fresh (t.namespaces, t.label_selector);
        distinct = λ t. d.distinct (t.namespaces, t.label_selector);
      }

  pub drift_check_spec_kind-IsDeep : IsDeep (drift_check_spec_kind L)
  unfolding pure ◌>>=◌ copy_drift_check_spec
  drift_check_spec_kind-IsDeep =
      let d =
        pair-IsDeep source_kind-IsDeep
          (pair-IsDeep target_kind-IsDeep (pointer-IsDeep notify_spec_kind-IsDeep)) in
      record {
        grows = λ s. d.grows (s.source, (s.target, s.notify));
        same = λ s n i.
            let v = d.same (s.source, (s.target, s.notify)) n i in
            record { source = v.0; target = v.1.0; interval = s.interval; notify = v.1.1 };
        fresh = λ s. d.fresh (s.source, (s.target, s.notify));
        distinct = λ s. d.distinct (s.source, (s.target, s.notify));
      }

  pub drift_check_status_kind-IsDeep : IsDeep (drift_check_status_kind L)
  unfolding pure ◌>>=◌ copy_drift_check_status
  drift_check_status_kind-IsDeep =
      let d = pair-IsDeep (pointer-IsDeep deep.time) (
        pair-IsDeep (slice-IsDeep (flat-IsDeep Api.DriftedResource))
          (slice-IsDeep deep.condition)) in
      record {
        grows = λ s. d.grows (s.last_checked_at, (s.drifted_resources, s.conditions));
        same = λ s n i.
            let v = d.same (s.last_checked_at, (s.drifted_resources, s.conditions)) n i in
            record {
              last_checked_at = v.0;
              drifted_resources = v.1.0;
              summary = s.summary;
              observed_generation = s.observed_generation;
              last_notified_hash = s.last_notified_hash;
              conditions = v.1.1;
            };
        fresh = λ s. d.fresh (s.last_checked_at, (s.drifted_resources, s.conditions));
        distinct = λ s. d.distinct (s.last_checked_at, (s.drifted_resources, s.conditions));
      }

  pub drift_check_kind-IsDeep : IsDeep (drift_check_kind L)
  unfolding pure ◌>>=◌ copy_drift_check
  drift_check_kind-IsDeep =
      let d =
        pair-IsDeep deep.object_meta
          (pair-IsDeep drift_check_spec_kind-IsDeep drift_check_status_kind-IsDeep) in
      record {
        grows = λ c. d.grows (c.object_meta, (c.spec, c.status));
        same = λ c n i.
            let v = d.same (c.object_meta, (c.spec, c.status)) n i in
            record {
              name = v.0.name;
              namespace = v.0.namespace;
              generation = v.0.generation;
              resource_version = v.0.resource_version;
              spec = v.1.0;
              status = v.1.1;
            };
        fresh = λ c. d.fresh (c.object_meta, (c.spec, c.status));
        distinct = λ c. d.distinct (c.object_meta, (c.spec, c.status));
      }

  pub drift_check_list_kind-IsDeep : IsDeep (drift_check_list_kind L)
  unfolding pure ◌>>=◌ copy_drift_check_list
  drift_check_list_kind-IsDeep =
      let d = pair-IsDeep deep.list_meta (slice-IsDeep drift_check_kind-IsDeep) in
      record {
        grows = λ l. d.grows (l.list_meta, l.items);
        same = λ l. d.same (l.list_meta, l.items);
        fresh = λ l. d.fresh (l.list_meta, l.items);
        distinct = λ l. d.distinct (l.list_meta, l.items);
      }
