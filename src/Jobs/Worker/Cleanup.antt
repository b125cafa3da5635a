-- ===== src/Jobs/Worker/Cleanup.antt =====
-- Which files `finish_job` of src/jobs/worker.rs removes.
use mathlib.Core.Path.{subst}
use mathlib.Core.List.{append-nil}
use unlimited_ocr_server.Prelude.{
  ℕ, ◌≡◌, ◌≢◌, ◌↔◌, refl, ◌∙◌, ap, sym, ◌⊎◌, inl, inr, List, [], ◌∷◌, ◌++◌, true, false, not, some,
  arith, ◌&&◌, Bool-cases, Option-cases, retain, Text, text_eq, text_eq_iff,
}
use unlimited_ocr_server.Prelude.Membership.{In}
use unlimited_ocr_server.Types.{Uuid, FilePath, JobRecord}
use unlimited_ocr_server.Config.{Config}
use unlimited_ocr_server.Jobs.Map.{get, update}
use unlimited_ocr_server.Jobs.Webhook.{Http, WebhookClient}
use unlimited_ocr_server.Jobs.Server.{Channel, Server}
use unlimited_ocr_server.Jobs.Worker.Finish.{finish_job_missing, finish_job-finish_found}
use unlimited_ocr_server.Jobs.Worker.{
  path_eq, path_starts_with, path_is_inside, is_uploaded, should_delete_image, Removal, removed,
  not_found, remove_failed, Finishing, AtWaits, JobResult, done, error, finish_record,
  cleanup_job_artifacts, finish_found, finish_job,
}

pub path_eq_iff : (p q : FilePath) → (path_eq p q ≡ true) ↔ (p ≡ q)
path_eq_iff [] [] = ground arith
path_eq_iff [] (b ∷ q) = ground arith
path_eq_iff (a ∷ p) [] = ground arith
path_eq_iff (a ∷ p) (b ∷ q) = ground (arith, text_eq_iff a b, path_eq_iff p q)

starts_with_of_append : (d rest : FilePath) → path_starts_with (d ++ rest) d ≡ true
starts_with_of_append [] [] = refl
starts_with_of_append [] (b ∷ rest) = refl
starts_with_of_append (a ∷ d) rest = ground (arith, text_eq_iff a a, starts_with_of_append d rest)

append_of_starts_with :
    (p d : FilePath) → path_starts_with p d ≡ true → (rest : FilePath) × (p ≡ d ++ rest)
append_of_starts_with p [] h = (p, refl)
append_of_starts_with [] (b ∷ d) h = absurd (ground arith)
append_of_starts_with (a ∷ p) (b ∷ d) h =
    let both : (text_eq a b ≡ true) × (path_starts_with p d ≡ true) = ground arith in
    let (rest, e) = append_of_starts_with p d both.1 in (rest, ground (arith, text_eq_iff a b))

ne_append : (d : FilePath) (a : Text) (rest : FilePath) → d ++ a ∷ rest ≢ d
ne_append [] a rest e = cc
ne_append (b ∷ d) a rest e = ne_append d a rest (ground arith)

path_is_inside-parts :
    (path directory : FilePath)
    → path_is_inside path directory ≡ true
    → (path_starts_with path directory ≡ true) × (path_eq path directory ≡ false)
unfolding path_is_inside
path_is_inside-parts path directory h = ground arith

name_of_inside :
    (path directory rest : FilePath)
    → path ≡ directory ++ rest
    → path ≢ directory
    → (name : Text) × (more : FilePath) × (path ≡ directory ++ name ∷ more)
name_of_inside path directory [] e n = absurd (n (e ∙ append-nil directory))
name_of_inside path directory (name ∷ more) e n = (name, more, e)

inside_name :
    (path directory : FilePath)
    → path_is_inside path directory ≡ true
    → (name : Text) × (rest : FilePath) × (path ≡ directory ++ name ∷ rest)
inside_name path directory h =
    let (starts, differs) = path_is_inside-parts path directory h in
    let (rest, e) = append_of_starts_with path directory starts in
    name_of_inside path directory rest e (λ same. ground (arith, path_eq_iff path directory))

inside_append :
    (directory : FilePath) (name : Text) (rest : FilePath)
    → path_is_inside (directory ++ name ∷ rest) directory ≡ true
unfolding path_is_inside
inside_append directory name rest = ground (
  arith,
  starts_with_of_append directory (name ∷ rest),
  path_eq_iff (directory ++ name ∷ rest) directory,
  ne_append directory name rest,
)

-- `path_is_inside` accepts a path exactly when it is the directory with one more component at least.
pub path_is_inside_iff :
    (path directory : FilePath)
    → (path_is_inside path directory ≡ true)
      ↔ ((name : Text) × (rest : FilePath) × (path ≡ directory ++ name ∷ rest))
path_is_inside_iff path directory = (
  inside_name path directory,
  λ found.
      subst (λ p. path_is_inside p directory ≡ true) (sym found.2)
        (inside_append directory found.0 found.1),
)

In-retain_path :
    (p q : FilePath) (images : List FilePath)
    → In p images
    → In p (retain (λ x. not (path_eq x q)) images) ⊎ (p ≡ q)
In-retain_path p q [] m = absurd m
In-retain_path p q (x ∷ images) (inl e) = elim (Bool-cases (path_eq x q)) [
  | inl t ↦ inr (sym e ∙ (path_eq_iff x q).0 t)
  | inr f ↦ rw f (inl (inl e))
]
In-retain_path p q (x ∷ images) (inr m) = elim (In-retain_path p q images m) [
  | inr e ↦ inr e
  | inl k ↦ elim (Bool-cases (path_eq x q)) [ inl t ↦ rw t (inl k) | inr f ↦ rw f (inl (inr k)) ]
]

module _ (c : Channel) (config : Config) (http : Http) (webhooks : WebhookClient) where
  -- Why a file may be gone.
  abbrev pub MayRemove : JobRecord → FilePath → Type 0
  MayRemove r p =
      (p ≡ r.image_path)
      × (is_uploaded r.input_kind ≡ true)
      × (path_is_inside p config.images_dir ≡ true)

  cleanup-images :
      (removal : Removal) (r : JobRecord) (s : Server c) (p : FilePath)
      → In p s.images
      → In p (cleanup_job_artifacts c config removal r s).images ⊎ MayRemove r p
  unfolding cleanup_job_artifacts should_delete_image
  cleanup-images removed r s p m =
      elim (Bool-cases
        (is_uploaded r.input_kind && path_is_inside r.image_path config.images_dir)) [
          | inr f ↦ rw f (inl m)
          | inl t ↦ rw t (elim (In-retain_path p r.image_path s.images m) [
            | inl kept ↦ inl kept
            | inr e ↦ inr (e, ground arith, rw e (ground arith))
          ])
        ]
  cleanup-images not_found r s p m =
      elim (Bool-cases
        (is_uploaded r.input_kind && path_is_inside r.image_path config.images_dir)) [
          | inr f ↦ rw f (inl m)
          | inl t ↦ rw t (inl m)
        ]
  cleanup-images (remove_failed x) r s p m =
      elim (Bool-cases
        (is_uploaded r.input_kind && path_is_inside r.image_path config.images_dir)) [
          | inr f ↦ rw f (inl m)
          | inl t ↦ rw t (inl m)
        ]

  -- Other tasks remove no file.
  abbrev pub KeepsImages : (Server c → Server c) → Type 0
  KeepsImages others = (s : Server c) (p : FilePath) → In p s.images → In p (others s).images

  finish_found-images :
      (f : Finishing c) (r : JobRecord) (s : Server c) (p : FilePath)
      → AtWaits KeepsImages f
      → In p s.images
      → In p (finish_found c config http webhooks f r s).images ⊎ MayRemove r p
  unfolding finish_found
  finish_found-images f r s p keeps m =
      let before = keeps.cleanup _ p (keeps.webhook _ p (keeps.append s p m)) in
      elim (cleanup-images f.removal r _ p before) [
        | inl kept ↦ inl (keeps.retain _ p kept)
        | inr may ↦ inr may
      ]

  finish_record-same :
      (now : ℕ) (result : JobResult) (r : JobRecord)
      → ((finish_record now result r).image_path ≡ r.image_path)
        × ((finish_record now result r).input_kind ≡ r.input_kind)
  unfolding finish_record
  finish_record-same now (done m) r = (refl, refl)
  finish_record-same now (error e) r = (refl, refl)

  -- If other tasks remove no file meanwhile, `finish_job` keeps every file on disk but one: the image
  -- of the finished job, if the job was an upload or a rendered page and the image lies inside the
  -- images directory.
  pub finish_job-images :
      (f : Finishing c) (id : Uuid) (result : JobResult) (s : Server c) (p : FilePath)
      → AtWaits KeepsImages f
      → In p s.images
      → In p (finish_job c config http webhooks f id result s).images
        ⊎ ((r : JobRecord) × (get (f.at_lock s).jobs id ≡ some r) × MayRemove r p)
  finish_job-images f id result s p keeps m = elim (Option-cases (get (f.at_lock s).jobs id)) [
    | inl gone ↦ inl (
        subst (λ t. In p t.images)
          (sym (finish_job_missing c config http webhooks f id result s gone)) (keeps.lock s p m))
    | inr (r, here) ↦
        let r' = finish_record f.now result r in
        let (path, kind) = finish_record-same f.now result r in
        let same = finish_job-finish_found c config http webhooks f id result s here in
        elim (finish_found-images f r' _ p keeps (keeps.lock s p m)) [
          | inl kept ↦ inl (subst (λ t. In p t.images) (sym same) kept)
          | inr (at, uploaded, inside) ↦
              inr (r, here, (at ∙ path, ap is_uploaded (sym kind) ∙ uploaded, inside))
        ]
  ]

  In-retain_other :
      (p q : FilePath) (images : List FilePath)
      → p ≡ q
      → In p (retain (λ x. not (path_eq x q)) images)
      → ⊥
  In-retain_other p q [] same m = m
  In-retain_other p q (x ∷ images) same m = elim (Bool-cases (path_eq x q)) [
    | inl t ↦ In-retain_other p q images same (rw t at m)
    | inr f ↦ elim (rw f at m) [
      | inl e ↦ ground (arith, path_eq_iff x q)
      | inr rest ↦ In-retain_other p q images same rest
    ]
  ]

  cleanup-removes :
      (fate : Removal) (r : JobRecord) (s : Server c)
      → fate ≡ removed
      → should_delete_image config r ≡ true
      → In r.image_path (cleanup_job_artifacts c config fate r s).images
      → ⊥
  unfolding cleanup_job_artifacts
  cleanup-removes not_found r s gone deletable m = absurd (ground arith)
  cleanup-removes (remove_failed e) r s gone deletable m = absurd (ground arith)
  cleanup-removes removed r s gone deletable m =
      In-retain_other r.image_path r.image_path s.images refl (rw deletable at m)

  -- Other tasks bring no file of that path.
  abbrev pub BringsNot : FilePath → (Server c → Server c) → Type 0
  BringsNot p others = (s : Server c) → In p (others s).images → In p s.images

  finish_found-removes :
      (f : Finishing c) (r : JobRecord) (s : Server c)
      → should_delete_image config r ≡ true
      → f.removal ≡ removed
      → BringsNot r.image_path f.at_retain
      → In r.image_path (finish_found c config http webhooks f r s).images
      → ⊥
  unfolding finish_found
  finish_found-removes f r s deletable gone quiet m =
      cleanup-removes f.removal r _ gone deletable (quiet _ m)

  -- A removal that the file system grants takes an image that may be deleted off the disk, if no
  -- other task writes it again before the map is pruned.
  pub finish_job-removes :
      (f : Finishing c) (id : Uuid) (result : JobResult) (s : Server c) (r : JobRecord)
      → get (f.at_lock s).jobs id ≡ some r
      → should_delete_image config r ≡ true
      → f.removal ≡ removed
      → BringsNot r.image_path f.at_retain
      → In r.image_path (finish_job c config http webhooks f id result s).images
      → ⊥
  unfolding should_delete_image
  finish_job-removes f id result s r here deletable gone quiet m =
      let final = finish_record f.now result r in
      let (path, kind) = finish_record-same f.now result r in
      let held = f.at_lock s in
      let stored : Server c = record held {
        jobs = update id (finish_record f.now result) held.jobs;
      } in
      let after = finish_found c config http webhooks f final stored in
      finish_found-removes f final stored (rw (path, kind) deletable) gone (rw path quiet) (
        subst (λ p. In p after.images) (sym path)
          (subst (λ t. In r.image_path t.images)
            (finish_job-finish_found c config http webhooks f id result s here) m))
