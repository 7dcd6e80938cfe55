-- ===== src/Reporter/Metrics/Termination.antt =====
-- A flush ends, and accounts for every sample.
use tom_ai_agent.Base.{
  ltb, ltb→lt, Bool-cases, length, take, drop, All, take-append-drop, length-take, length-drop,
  drop_all, ℕ, zero, suc, ◌+◌, ◌%◌, ◌^◌, ◌≤◌, ◌<◌, min, ◌≡◌, refl, sym, ap, ◌∙◌, ◌≢◌, inl, inr,
  Bool, true, false, none, some, List, [], ◌∷◌, ◌++◌, append-nil, append_assoc, arith,
}
use tom_ai_agent.Reporter.Metrics.{
  MetricsBuffer, Fallback, no_log, log_takes, log_fails, FlushRun, slice_from, begin_flush,
  end_flush, flush_metrics,
}

abbrev pub concat {ℓ} : {A : Type ℓ} → List (List A) → List A
concat [] = []
concat (xs ∷ xss) = xs ++ concat xss

module _ (Metric : Type 0) where
  -- One round, on a buffer that is not empty.
  abbrev batch_of : MetricsBuffer Metric → List Metric
  batch_of r = take (min r.batch_size (length r.buf)) r.buf

  abbrev begun : MetricsBuffer Metric → MetricsBuffer Metric
  begun r = record r { seq = (r.seq + 1) % 2 ^ 64 }

  abbrev rest_of : MetricsBuffer Metric → MetricsBuffer Metric
  rest_of r = record (begun r) { buf = drop (length (batch_of r)) r.buf }

  begin_flush-some :
      (r : MetricsBuffer Metric)
      → 0 < length r.buf
      → begin_flush Metric r ≡ some (batch_of r, begun r)
  unfolding begin_flush
  begin_flush-some r h = ground arith

  begin_flush-none : (r : MetricsBuffer Metric) → length r.buf ≡ 0 → begin_flush Metric r ≡ none
  unfolding begin_flush
  begin_flush-none r h = ground arith

  length-batch_of :
      (r : MetricsBuffer Metric) → length (batch_of r) ≡ min r.batch_size (length r.buf)
  length-batch_of r = omega (arith, length-take (min r.batch_size (length r.buf)) r.buf)

  batch_fits : (r : MetricsBuffer Metric) → length (batch_of r) ≤ r.batch_size
  batch_fits r = let e = length-batch_of r in omega (arith, e)

  end_flush-some :
      (r : MetricsBuffer Metric)
      → end_flush Metric (length (batch_of r)) (begun r) ≡ some (rest_of r)
  unfolding end_flush slice_from
  end_flush-some r = ground (arith, length-batch_of r)

  batch-rest : (r : MetricsBuffer Metric) → batch_of r ++ (rest_of r).buf ≡ r.buf
  batch-rest r =
      ap (λ n. batch_of r ++ drop n r.buf) (let e = length-batch_of r in omega (arith, e))
      ∙ take-append-drop (min r.batch_size (length r.buf)) r.buf

  abbrev refused_run : MetricsBuffer Metric → Fallback → FlushRun Metric
  refused_run r no_log = record { sent = []; logged = []; given_up = []; after = begun r }
  refused_run r log_takes = record {
    sent = [];
    logged = batch_of r ∷ [];
    given_up = [];
    after = rest_of r;
  }
  refused_run r log_fails = record {
    sent = [];
    logged = [];
    given_up = batch_of r ∷ [];
    after = rest_of r;
  }

  module _ (fuel : ℕ) (takes : ℕ → Bool) (i : ℕ) (r : MetricsBuffer Metric) where
    empty_round :
        (log : Fallback)
        → length r.buf ≡ 0
        → flush_metrics Metric (suc fuel) takes log i r
          ≡ some (record { sent = []; logged = []; given_up = []; after = r })
    unfolding flush_metrics
    empty_round log e = rw (flush_metrics, begin_flush-none r e) refl

    short_round :
        (log : Fallback)
        → 0 < length r.buf
        → takes i ≡ true
        → ltb (length (batch_of r)) r.batch_size ≡ true
        → flush_metrics Metric (suc fuel) takes log i r
          ≡ some (record { sent = batch_of r ∷ []; logged = []; given_up = []; after = rest_of r })
    unfolding flush_metrics
    short_round log e ok short =
        rw (flush_metrics, begin_flush-some r e, end_flush-some r, ok, short) refl

    full_round :
        (log : Fallback) (f : FlushRun Metric)
        → 0 < length r.buf
        → takes i ≡ true
        → ltb (length (batch_of r)) r.batch_size ≡ false
        → flush_metrics Metric fuel takes log (i + 1) (rest_of r) ≡ some f
        → flush_metrics Metric (suc fuel) takes log i r
          ≡ some (record f { sent = batch_of r ∷ f.sent })
    unfolding flush_metrics
    full_round log f e ok full rest =
        rw (flush_metrics, begin_flush-some r e, end_flush-some r, ok, full, rest) refl

    refused_round :
        (log : Fallback)
        → 0 < length r.buf
        → takes i ≡ false
        → flush_metrics Metric (suc fuel) takes log i r ≡ some (refused_run r log)
    unfolding flush_metrics
    refused_round no_log e refused =
        rw (flush_metrics, begin_flush-some r e, end_flush-some r, refused) refl
    refused_round log_takes e refused =
        rw (flush_metrics, begin_flush-some r e, end_flush-some r, refused) refl
    refused_round log_fails e refused =
        rw (flush_metrics, begin_flush-some r e, end_flush-some r, refused) refl

  -- The run of a flush from `r`: each sample was sent, logged or given up, in its order and once, or is still
  -- in the buffer. Each of these batches has at most the size of a batch. If the sink takes every batch nothing is left.
  pub record Accounts (takes : ℕ → Bool) (log : Fallback) (r : MetricsBuffer Metric)
      (f : FlushRun Metric) : Type 0 where
    pub all : concat f.sent ++ (concat f.logged ++ (concat f.given_up ++ f.after.buf)) ≡ r.buf
    pub bounded : All (λ b. length b ≤ r.batch_size) f.sent
    pub log_bounded : All (λ b. length b ≤ r.batch_size) f.logged
    pub lost_bounded : All (λ b. length b ≤ r.batch_size) f.given_up
    pub whole : ((i : ℕ) → takes i ≡ true) → f.after.buf ≡ []
    pub kept : log ≢ log_fails → f.given_up ≡ []

  refused-Accounts :
      (takes : ℕ → Bool) (log : Fallback) (i : ℕ) (r : MetricsBuffer Metric)
      → takes i ≡ false
      → Accounts takes log r (refused_run r log)
  refused-Accounts takes no_log i r refused = record {
    all = refl;
    bounded = tt;
    log_bounded = tt;
    lost_bounded = tt;
    whole = λ h. absurd (let e : false ≡ true = sym refused ∙ h i in cc e);
    kept = λ h. refl;
  }
  refused-Accounts takes log_takes i r refused = record {
    all = rw append-nil (batch-rest r);
    bounded = tt;
    log_bounded = (batch_fits r, tt);
    lost_bounded = tt;
    whole = λ h. absurd (let e : false ≡ true = sym refused ∙ h i in cc e);
    kept = λ h. refl;
  }
  refused-Accounts takes log_fails i r refused = record {
    all = rw append-nil (batch-rest r);
    bounded = tt;
    log_bounded = tt;
    lost_bounded = (batch_fits r, tt);
    whole = λ h. absurd (let e : false ≡ true = sym refused ∙ h i in cc e);
    kept = λ h. absurd (h refl);
  }

  nothing_left : (xs : List Metric) → ltb 0 (length xs) ≡ false → xs ≡ []
  nothing_left [] e = refl
  nothing_left (x ∷ xs) e = absurd (ground (arith, e))

  short-Accounts :
      (takes : ℕ → Bool) (log : Fallback) (r : MetricsBuffer Metric)
      → ltb (length (batch_of r)) r.batch_size ≡ true
      → Accounts takes log r
          (record { sent = batch_of r ∷ []; logged = []; given_up = []; after = rest_of r })
  short-Accounts takes log r short = record {
    all = rw append-nil (batch-rest r);
    bounded = (batch_fits r, tt);
    log_bounded = tt;
    lost_bounded = tt;
    whole = λ h.
        drop_all (length (batch_of r)) r.buf
          (let e = length-batch_of r in omega (arith, e, ltb→lt _ _ short));
    kept = λ h. refl;
  }

  full-Accounts :
      (takes : ℕ → Bool) (log : Fallback) (r : MetricsBuffer Metric) (f : FlushRun Metric)
      → Accounts takes log (rest_of r) f
      → Accounts takes log r (record f { sent = batch_of r ∷ f.sent })
  full-Accounts takes log r f a = record {
    all =
        append_assoc (batch_of r) (concat f.sent) _
        ∙ ap (λ xs. batch_of r ++ xs) a.all
        ∙ batch-rest r;
    bounded = (batch_fits r, a.bounded);
    log_bounded = a.log_bounded;
    lost_bounded = a.lost_bounded;
    whole = a.whole;
    kept = a.kept;
  }

  fewer_left :
      (r : MetricsBuffer Metric) (fuel : ℕ)
      → 0 < r.batch_size
      → 0 < length r.buf
      → length r.buf < suc fuel
      → length (rest_of r).buf < fuel
  fewer_left r fuel some_size found enough =
      let e = length-batch_of r in
      let d = length-drop (length (batch_of r)) r.buf in omega (arith, e, d)

  -- A flush ends when a batch may hold a sample and nothing is submitted meanwhile: one round more than there
  -- are samples is enough, and no round panics. Each sample was then sent, logged or given up, in order
  -- and once, or is still in the buffer; no batch that was sent, logged or given up is too long; nothing is left if the sink takes every batch,
  -- and a sample is given up only if the fallback log fails.
  pub flush_metrics-Accounts :
      (fuel : ℕ) (takes : ℕ → Bool) (log : Fallback) (i : ℕ) (r : MetricsBuffer Metric)
      → 0 < r.batch_size
      → length r.buf < fuel
      → (f : FlushRun Metric) × (flush_metrics Metric fuel takes log i r ≡ some f)
        × Accounts takes log r f
  flush_metrics-Accounts zero takes log i r some_size enough = absurd (omega arith)
  flush_metrics-Accounts (suc fuel) takes log i r some_size enough =
      elim (Bool-cases (ltb 0 (length r.buf))) [
        | inr nothing ↦ (
          record { sent = []; logged = []; given_up = []; after = r },
          empty_round fuel takes i r log (ground (arith, nothing)),
          record {
            all = refl;
            bounded = tt;
            log_bounded = tt;
            lost_bounded = tt;
            whole = λ h. nothing_left r.buf nothing;
            kept = λ h. refl;
          },
        )
        | inl found ↦ elim (Bool-cases (takes i)) [
          | inr refused ↦ (
            refused_run r log,
            refused_round fuel takes i r log (ltb→lt _ _ found) refused,
            refused-Accounts takes log i r refused,
          )
          | inl ok ↦ elim (Bool-cases (ltb (length (batch_of r)) r.batch_size)) [
            | inl short ↦ (
              record { sent = batch_of r ∷ []; logged = []; given_up = []; after = rest_of r },
              short_round fuel takes i r log (ltb→lt _ _ found) ok short,
              short-Accounts takes log r short,
            )
            | inr full ↦
                let (f, run, a) =
                  flush_metrics-Accounts fuel takes log (i + 1) (rest_of r) some_size
                    (fewer_left r fuel some_size (ltb→lt _ _ found) enough) in
                (
                  record f { sent = batch_of r ∷ f.sent },
                  full_round fuel takes i r log f (ltb→lt _ _ found) ok full run,
                  full-Accounts takes log r f a,
                )
          ]
        ]
      ]

  -- With a batch size of zero a flush of a buffer that is not empty never ends while the sink takes the empty
  -- batches: no number of rounds is enough.
  flush_spins :
      (fuel : ℕ) (takes : ℕ → Bool) (log : Fallback) (i : ℕ) (r : MetricsBuffer Metric)
      → r.batch_size ≡ 0
      → 0 < length r.buf
      → ((k : ℕ) → takes k ≡ true)
      → flush_metrics Metric fuel takes log i r ≡ none
  unfolding flush_metrics
  flush_spins zero takes log i r none_fit found ok = refl
  flush_spins (suc fuel) takes log i r none_fit found ok =
      rw
        (
          flush_metrics,
          begin_flush-some r found,
          end_flush-some r,
          ok i,
          full,
          flush_spins fuel takes log (i + 1) (rest_of r) none_fit left ok,
        )
        refl
    where
      full : ltb (length (batch_of r)) r.batch_size ≡ false
      full = ground (arith, none_fit)

      left : 0 < length (rest_of r).buf
      left =
          let e = length-batch_of r in
          let d = length-drop (length (batch_of r)) r.buf in omega (arith, e, d, none_fit, found)
