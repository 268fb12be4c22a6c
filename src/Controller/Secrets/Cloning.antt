-- ===== src/Controller/Secrets/Cloning.antt =====
-- Clones with the credentials of a Secret.
use kube_drift.Common.{◌≡◌, refl, Bool, true, false, Option, some, List, [], ◌∷◌, Text, is_empty}
use kube_drift.Machine.{Call, cloned}
use kube_drift.Machine.Rules.{
  Keeps, Keeps-bind, Keeps-bind_of, Keeps-wrapped, Keeps-act, Keeps-if, Keeps-pure, Yields,
  Yields-pure, Yields-if, Yields-then, Yields-wrapped,
}
use kube_drift.Libraries.{Os, Git, Secret, AuthMethod}
use kube_drift.Api.{GitAuthType}
use kube_drift.Source
use kube_drift.Source.{GitAuth}
use kube_drift.Source.Auth.{auth_method, scheme_method, ssh_method}
use kube_drift.Source.Clone.{is_anonymous, git_clone}
use kube_drift.Source.Clone.Calls.{Keeps-auth_method, Keeps-check_out, IgnoresFiles}
use kube_drift.Controller.Secrets.Schemes.{HasScheme, has_basic, has_bearer, has_ssh}

-- The URLs that were cloned without credentials.
abbrev pub anonymous_clones : List Call → List Text
anonymous_clones [] = []
anonymous_clones (cloned dir url true ∷ cs) = url ∷ anonymous_clones cs
anonymous_clones (_ ∷ cs) = anonymous_clones cs

anonymous_clones-IgnoresFiles : IgnoresFiles anonymous_clones
anonymous_clones-IgnoresFiles = record {
  of_made_file = λ r cs. refl;
  of_removed_file = λ f r cs. refl;
  of_checked_out = λ hash r cs. refl;
}

unseen :
    (dir url : Text) (anonymous : Bool) (cs : List Call)
    → anonymous ≡ false
    → anonymous_clones (cloned dir url anonymous ∷ cs) ≡ anonymous_clones cs
unseen dir url true cs h = cc
unseen dir url false cs h = refl

nil_of_is_empty : (s : Text) → is_empty s ≡ true → s ≡ []
nil_of_is_empty [] h = refl
nil_of_is_empty (c ∷ s) h = cc

abbrev Named : Option AuthMethod → Type 0
Named am = is_anonymous am ≡ false

module _ {S : Type 0} (os : Os S) (git : Git S) where
  Yields-ssh_method : (a : Source.SshAuth) → Yields Named (ssh_method os git a)
  unfolding ssh_method
  Yields-ssh_method a = Yields-then _ _ (λ key. Yields-then _ _ (λ callback. Yields-pure _ refl))

  Yields-auth_method :
      (sec : Secret) (t : GitAuthType) (a : GitAuth)
      → HasScheme sec t a
      → Yields Named (auth_method os git (some a))
  unfolding auth_method scheme_method
  Yields-auth_method sec t a (has_basic u p _ _ _ _) = Yields-pure _ refl
  Yields-auth_method sec t a (has_bearer token _ full) =
      Yields-if (is_empty token) _ _ (λ blank. absurd (full (nil_of_is_empty token blank)))
        (λ _. Yields-pure _ refl)
  Yields-auth_method sec t a (has_ssh i p kh _ _ _ _ _) =
      Yields-ssh_method (record { user = []; private_key = i; passphrase = p; known_hosts = kh })

  -- With credentials of a scheme, no clone is anonymous.
  pub anonymous_clones-git_clone :
      (sec : Secret) (t : GitAuthType) (a : GitAuth) (dir url ref : Text)
      → HasScheme sec t a
      → Keeps anonymous_clones (git_clone os git dir url ref (some a))
  unfolding git_clone
  anonymous_clones-git_clone sec t a dir url ref scheme =
      let files = anonymous_clones-IgnoresFiles in
      Keeps-bind_of _ _ (Keeps-wrapped _ _ _ (Keeps-auth_method files os git (some a)))
        (Yields-wrapped _ _ _ (Yields-auth_method sec t a scheme))
        (λ am named.
          Keeps-bind _ _ (Keeps-act _ _ (λ _ cs. unseen dir url (is_anonymous am) cs named))
            (λ repo.
              Keeps-if (is_empty ref) _ _ (Keeps-pure tt) (Keeps-check_out files os git repo ref)))
