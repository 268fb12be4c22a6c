-- ===== src/Tests/Loading.antt =====
-- Examples of the theorems on the sources.
use mathlib.Core.List.{Memᴰ}
use kube_drift.Common.{
  ◌≡◌, refl, ◌↔◌, none, some, List, [], ◌∷◌, Text, text, ◌==◌, ◌&&◌, trim_space, trim_line_end,
}
use kube_drift.Errors.{ok}
use kube_drift.Machine.Rules.{Keeps}
use kube_drift.Libraries.{Secret}
use kube_drift.Api.{ssh}
use kube_drift.Source
use kube_drift.Source.{GitAuth}
use kube_drift.Source.Auth.{auth_method}
use kube_drift.Source.Auth.Files.{open_files, open_files-auth_method}
use kube_drift.Source.Checkout.Cleanup.{pending}
use kube_drift.Source.Target.{filter_loaded}
use kube_drift.Source.Target.Filter.{IsTargeted, filter_loaded-IsTargeted}
use kube_drift.Source.Values.{Fields, leaf, obj, end, field, lookup, merge_values}
use kube_drift.Source.Values.Merge.{IsMerge, IsGoMap, merge_values-IsMerge}
use kube_drift.Source.Dependencies.{is_http, dependency_repo_file}
use kube_drift.Source.Dependencies.Repositories.{urls, IsDistinct}
use kube_drift.Source.Dependencies.Names.{names, dependency_repo_file_lem}
use kube_drift.Source.Target.{listed}
use kube_drift.Source.Load.{load, new_target_filter}
use kube_drift.Source.Load.Directories.{pending-load}
use kube_drift.Source.Load.Filtered.{targeted, load-new_target_filter}
use kube_drift.Controller.Secrets.{credentials}
use kube_drift.Controller.Secrets.Schemes.{HasScheme, credentials-HasScheme}
use kube_drift.Tests.Fixtures.{S, resource, os, diff, backends, http, start}
use kube_drift.Tests.Fixtures

abbrev repository : Source.Source S
repository = Source.git (record {
  url = text "https://git";
  ref = text "main";
  path = text "deploy";
  auth = none;
  clone = none;
})

pending-load_example : Keeps pending (load backends repository)
pending-load_example = pending-load backends repository (λ s. refl) tt

abbrev secret : Secret
secret = record {
  entries =
      (text "identity", text "key")
      ∷ (text "known_hosts", text "host key")
      ∷ (text "password", text "words")
      ∷ [];
}

abbrev by_ssh : GitAuth
by_ssh = record {
  basic = none;
  bearer = [];
  ssh = some (record {
    user = [];
    private_key = text "key";
    passphrase = text "words";
    known_hosts = text "host key";
  });
}

by_ssh-ok : credentials ssh (text "a/s") secret ≡ ok by_ssh
unfolding credentials trim_space trim_line_end ◌==◌
by_ssh-ok = refl

credentials-HasScheme_example : HasScheme secret ssh by_ssh
credentials-HasScheme_example = credentials-HasScheme ssh (text "a/s") secret by_ssh by_ssh-ok

open_files-auth_method_example : Keeps open_files (auth_method os Fixtures.git (some by_ssh))
open_files-auth_method_example = open_files-auth_method os Fixtures.git (some by_ssh)

filter_loaded-IsTargeted_example :
    Memᴰ resource (filter_loaded (text "a" ∷ []) none (resource ∷ []))
    ↔ Memᴰ resource (resource ∷ []) × IsTargeted (text "a" ∷ []) none resource
filter_loaded-IsTargeted_example =
    filter_loaded-IsTargeted (text "a" ∷ []) none (resource ∷ []) resource

load-new_target_filter_example :
    load backends (new_target_filter repository (text "b" ∷ []) none) start ≡ (
      targeted (text "b" ∷ []) none (load backends repository start).0,
      (load backends repository start).1,
    )
load-new_target_filter_example =
    load-new_target_filter backends repository (text "b" ∷ []) none start

abbrev old_values : Fields
old_values = field (text "image") (obj (field (text "tag") (leaf (text "1")) end)) end

abbrev new_values : Fields
new_values = field (text "image") (obj (field (text "name") (leaf (text "web")) end)) end

merge_values-IsMerge_example :
    IsMerge
      (lookup (text "image") old_values)
      (lookup (text "image") new_values)
      (lookup (text "image") (merge_values old_values new_values))
unfolding lookup IsGoMap
merge_values-IsMerge_example =
    merge_values-IsMerge old_values new_values (refl, (refl, tt, tt), tt) (text "image")

abbrev dependencies : List Text
dependencies = text "https://charts" ∷ text "oci://charts" ∷ text "https://charts" ∷ []

dependency_repo_file_lem_example :
    IsDistinct (urls (dependency_repo_file dependencies))
    × ((u : Text)
        → listed u (urls (dependency_repo_file dependencies))
          ≡ (is_http u && listed u dependencies))
    × IsDistinct (names (dependency_repo_file dependencies))
dependency_repo_file_lem_example = dependency_repo_file_lem dependencies
