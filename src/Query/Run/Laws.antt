-- ===== src/Query/Run/Laws.antt =====
-- What a query lists of the entries that it visits.
use watchwoman.Base.{
  ℕ, ◌≤◌, ◌<◌, ◌≡◌, refl, Bool, not, Option, none, some, List, [], ◌∷◌, arith, All, filter,
}
use watchwoman.Base.Text.{FilePath}
use watchwoman.Protocol.Value.{no_items}
use watchwoman.Daemon.Entry.{FileEntry}
use watchwoman.Daemon.Root.{Root}
use watchwoman.Query.Run.{Environment, Spec, is_unchanged, files_of}

module _ (env : Environment) (root : Root) (spec : Spec env)
    (scm_allowed : Option (List FilePath)) where
  -- Nothing is listed of entries that did not change.
  pub files_of_unchanged :
      (t : ℕ) (entries : List (FilePath × FileEntry))
      → All (λ (p : FilePath × FileEntry). p.1.oclock ≤ t) entries
      → files_of env root spec scm_allowed (some t) entries ≡ no_items
  unfolding files_of
  files_of_unchanged t [] h = refl
  files_of_unchanged t ((rel, entry) ∷ entries) (h, hs) =
      ground (arith, files_of_unchanged t entries hs)

  pub files_of_changed :
      (t : ℕ) (entries : List (FilePath × FileEntry))
      → All (λ (p : FilePath × FileEntry). t < p.1.oclock) entries
      → files_of env root spec scm_allowed (some t) entries
        ≡ files_of env root spec scm_allowed none entries
  unfolding files_of
  files_of_changed t [] h = refl
  files_of_changed t ((rel, entry) ∷ entries) (h, hs) =
      ground (arith, h, files_of_changed t entries hs)

  -- Where the entries that changed are those at some paths, the others might as well not be there.
  pub files_of-filter :
      (t : ℕ) (p : FilePath → Bool) (entries : List (FilePath × FileEntry))
      → All (λ (q : FilePath × FileEntry). is_unchanged (some t) q.1 ≡ not (p q.0)) entries
      → files_of env root spec scm_allowed (some t) entries
        ≡ files_of env root spec scm_allowed none
            (filter (λ (q : FilePath × FileEntry). p q.0) entries)
  unfolding files_of
  files_of-filter t p [] h = refl
  files_of-filter t p ((rel, entry) ∷ entries) (h, hs) =
      ground (arith, h, files_of-filter t p entries hs)
