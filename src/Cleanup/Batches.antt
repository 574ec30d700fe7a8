-- ===== src/Cleanup/Batches.antt =====
-- What the loop over the batches in executeCleanup (internal/diagnostics/resource_cleanup.go) does.
use docker_net_doctor.Prelude.{
  ℕ, zero, suc, ◌+◌, ◌≤◌, ◌≡◌, refl, sym, ap, ◌∙◌, inl, inr, ◌⊎◌, none, List, [], ◌∷◌, ◌++◌, map,
  keep, length, take, drop, arith, take-append-drop, length-drop, Option-cases, keep-append,
  any-append,
}
use docker_net_doctor.Prelude.Schedule.{arrange-perm}
use docker_net_doctor.Prelude.Text.{Text-eq}
use docker_net_doctor.Cleanup.{TrackedResource}
use docker_net_doctor.Cleanup.Operations.{
  Surroundings, result_of, cleanup_all, process_batch, cleanup_error, is_error, Progress,
  after_batch, run_batches,
}
use mathlib.Core.List.{map-append, append_assoc, append-nil}
use mathlib.Core.List.Perm
use mathlib.Core.Path.{fun_ext}
use docker_net_doctor.Cleanup.Single.{
  Same-refl, Same-trans, result_of-Same, ends_tracking-Same, Cleaned, cleanup_all-results,
  cleanup_all-lookup,
}

Cleaned-none : (p : Progress) → Cleaned [] p p
Cleaned-none p = record {
  same = Same-refl p.manager;
  answered = rw (append-nil p.results) (Perm.refl p.results);
  reported = rw (append-nil p.errors) (Perm.refl p.errors);
  tracked = λ t id. refl;
}

after_batch-Cleaned :
    (env : Surroundings) (i : ℕ) (batch : List TrackedResource) (p : Progress)
    → Cleaned batch p (after_batch env i batch p)
unfolding process_batch
after_batch-Cleaned env i batch p =
    let (s, e) = cleanup_all-results batch p.manager in
    record {
      same = s;
      answered =
          Perm.append_left p.results
            (rw (← e) (arrange-perm (env.results_order i) (cleanup_all batch p.manager).1));
      reported = Perm.append_left p.errors (
          rw (← e) (
            arrange-perm (env.errors_order i)
              (map cleanup_error (keep is_error (cleanup_all batch p.manager).1))));
      tracked = λ t id. cleanup_all-lookup batch p.manager t id;
    }

module _ {p q r : Progress} (xs ys : List TrackedResource) (a : Cleaned xs p q)
    (b : Cleaned ys q r) where
  results_after : map (result_of q.manager) ys ≡ map (result_of p.manager) ys
  results_after = rw (fun_ext (λ x. result_of-Same x a.same)) refl

  Cleaned-append : Cleaned (xs ++ ys) p r
  Cleaned-append = record {
    same = Same-trans a.same b.same;
    answered = Perm.trans b.answered (
        rw (results_after, map-append, ← append_assoc)
          (Perm.append_right (map (result_of p.manager) ys) a.answered));
    reported = Perm.trans b.reported (
        rw (results_after, map-append, keep-append, map-append, ← append_assoc)
          (Perm.append_right (map cleanup_error (keep is_error (map (result_of p.manager) ys)))
            a.reported));
    tracked = λ t id.
        b.tracked t id
        ∙ rw (fun_ext (λ x. ends_tracking-Same t id x a.same))
            (rw (a.tracked t id, any-append) (ground arith));
  }

-- The loop over the batches deals with the first resources, and with all of them unless the context ends it.
pub record Looped (env : Surroundings) (rs : List TrackedResource) (p q : Progress) : Type 0 where
  pub dealt : List TrackedResource
  pub left : List TrackedResource
  pub parts : rs ≡ dealt ++ left
  pub cleaned : Cleaned dealt p q
  pub all_dealt : q.interrupted ≡ none → left ≡ []
  pub by_context : (q.interrupted ≡ none) ⊎ ((i : ℕ) × (q.interrupted ≡ env.done i))

pub run_batches-Looped :
    (env : Surroundings) (size rounds i : ℕ) (rs : List TrackedResource) (p : Progress)
    → 1 ≤ size
    → length rs ≤ rounds
    → p.interrupted ≡ none
    → Looped env rs p (run_batches env size rounds i rs p)
unfolding run_batches
run_batches-Looped env size rounds i [] p s h n = record {
  dealt = [];
  left = [];
  parts = refl;
  cleaned = Cleaned-none p;
  all_dealt = λ e. refl;
  by_context = inl n;
}
run_batches-Looped env size zero i (r ∷ rs) p s h n = absurd (omega arith)
run_batches-Looped env size (suc rounds) i (r ∷ rs) p s h n =
    let q = after_batch env i (take size (r ∷ rs)) p in
    let c = after_batch-Cleaned env i (take size (r ∷ rs)) p in
    elim (Option-cases (env.done i)) [
      | inr (e, d) ↦
          rw (after_batch, d)
            (record {
              dealt = take size (r ∷ rs);
              left = drop size (r ∷ rs);
              parts = sym (take-append-drop size (r ∷ rs));
              cleaned = c;
              all_dealt = λ x. cc;
              by_context = inr (i, refl);
            })
      | inl d ↦
          let l =
            run_batches-Looped env size rounds (i + 1) (drop size (r ∷ rs)) q s
              (omega (arith, length-drop size (r ∷ rs))) d in
          rw (after_batch, d)
            (record {
              dealt = take size (r ∷ rs) ++ l.dealt;
              left = l.left;
              parts =
                  sym (take-append-drop size (r ∷ rs))
                  ∙ ap (λ x. take size (r ∷ rs) ++ x) l.parts
                  ∙ sym (append_assoc (take size (r ∷ rs)) l.dealt l.left);
              cleaned = Cleaned-append (take size (r ∷ rs)) l.dealt c l.cleaned;
              all_dealt = l.all_dealt;
              by_context = l.by_context;
            })
    ]
