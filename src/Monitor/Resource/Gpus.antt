-- ===== src/Monitor/Resource/Gpus.antt =====
-- What the private allocateGPUs of resource_monitor.cpp gets, on its two paths.
use mathlib.Core.Bool.{false≢true}
use myqueue.Prelude.{
  ℕ, ◌+◌, ◌≤◌, ◌<◌, ◌≡◌, refl, sym, ◌∙◌, ◌⊎◌, inl, inr, false, List, [], ◌∷◌, ◌++◌, length,
  length-append, arith, Bool-cases, All, if_ind,
}
use myqueue.Prelude.Int.{ℤ, pos, negsuc, ltz, lez}
use myqueue.Prelude.Members.{All-append}
use myqueue.Prelude.Set.{contains}
use myqueue.Prelude.Text.{Bytes}
use myqueue.Monitor.Cpu.{at_least_zero}
use myqueue.Monitor.Gpu.{GpuMonitor, is_gpu_busy, get_available_gpus, allocate_gpus}
use myqueue.Monitor.Gpu.Available.{get_available_gpus_lem}
use myqueue.Monitor.Resource.{
  World, Monitor, size_of, any_in, any_busy, pick_gpus, try_specific_gpus, try_auto_gpus, try_gpus,
}

-- None of the ids is in the set.
abbrev pub Outside : List ℤ → List ℤ → Type 0
Outside s = All (λ id. contains id s ≡ false)

-- The ids are what was asked for: the specific ones, or as many as the count.
abbrev pub Fits : ℤ → List ℤ → List ℤ → Type 0
Fits count [] got = length got ≡ at_least_zero count
Fits count (id ∷ ids) got = got ≡ id ∷ ids

pub any_in-Outside : (excluded ids : List ℤ) → any_in excluded ids ≡ false → Outside excluded ids
unfolding any_in
any_in-Outside excluded [] h = tt
any_in-Outside excluded (id ∷ ids) h = (ground arith, any_in-Outside excluded ids (ground arith))

not_busy_free :
    (g : GpuMonitor) (output : Bytes) (id : ℤ)
    → is_gpu_busy g output id ≡ false
    → contains id g.allocated_gpus ≡ false
unfolding is_gpu_busy
not_busy_free g output id h = elim (Bool-cases (contains id g.allocated_gpus)) [
  | inl e ↦ absurd (false≢true (sym h ∙ rw e))
  | inr e ↦ e
]

any_busy-Outside :
    (w : World) (g : GpuMonitor) (now : ℕ) (ids : List ℤ)
    → (any_busy w g now ids).0 ≡ false
    → Outside g.allocated_gpus ids
unfolding any_busy
any_busy-Outside w g now [] h = tt
any_busy-Outside w g now (id ∷ ids) h = elim (Bool-cases (is_gpu_busy g (w.nvidia_smi now) id)) [
  | inl e ↦ absurd (false≢true (sym h ∙ rw (e, any_busy)))
  | inr e ↦ (
    not_busy_free g (w.nvidia_smi now) id e,
    any_busy-Outside w g (now + 1) ids (rw (e, any_busy) at h),
  )
]

-- A list shorter than the count has room for one more.
pub room :
    (count : ℤ) (got : List ℤ) (id : ℤ)
    → lez count (size_of got) ≡ false
    → length (got ++ id ∷ []) ≤ at_least_zero count
room (pos n) got id f = omega (arith, length-append got (id ∷ []), short n f)
  where
    short : (n : ℕ) → lez (pos n) (size_of got) ≡ false → length got < n
    short n f = ground arith
room (negsuc n) got id f = cc

-- A list that is long enough and no longer than the count has its length.
pub full :
    (count : ℤ) (got : List ℤ)
    → ltz (size_of got) count ≡ false
    → length got ≤ at_least_zero count
    → length got ≡ at_least_zero count
full (pos n) got f h = ground arith
full (negsuc n) got f h = omega arith

module _ (excluded allocated : List ℤ) (ngpu : ℤ) where
  -- What the picking loop has at each round.
  Picked : List ℤ → Type 0
  Picked got = Outside allocated got × Outside excluded got × (length got ≤ at_least_zero ngpu)

  pick_gpus-Picked :
      (got ids : List ℤ)
      → Picked got
      → Outside allocated ids
      → Picked (pick_gpus excluded ngpu got ids)
  unfolding pick_gpus Picked
  pick_gpus-Picked got [] p o = p
  pick_gpus-Picked got (id ∷ ids) p o =
      if_ind Picked (contains id excluded) (λ _. pick_gpus-Picked got ids p o.1)
        (λ e.
          if_ind Picked (lez ngpu (size_of got)) (λ _. p)
            (λ f.
              pick_gpus-Picked (got ++ id ∷ []) ids
                (
                  All-append _ got (id ∷ []) p.0 (o.0, tt),
                  All-append _ got (id ∷ []) p.1 (e, tt),
                  room ngpu got id f,
                )
                o.1))

-- Ids that may be handed out: neither allocated nor excluded, and what was asked for.
pub record Got (excluded allocated : List ℤ) (count : ℤ) (specific got : List ℤ) : Type 0 where
  pub free : Outside allocated got
  pub allowed : Outside excluded got
  pub fits : Fits count specific got

module _ (w : World) (m : Monitor) (ngpu : ℤ) where
  open m use {gpu_monitor, excluded_gpus}

  -- Either nothing is taken, or ids that may be handed out are marked as allocated.
  abbrev pub GpuOutcome : List ℤ → List ℤ × GpuMonitor × ℕ → Type 0
  GpuOutcome specific (got, g, now) =
      ((got ≡ []) × (g ≡ gpu_monitor))
      ⊎ (Got excluded_gpus gpu_monitor.allocated_gpus ngpu specific got
          × (g ≡ allocate_gpus gpu_monitor got))

  specific_outcome :
      (now : ℕ) (id : ℤ) (ids : List ℤ)
      → GpuOutcome (id ∷ ids) (try_specific_gpus w m now (id ∷ ids))
  unfolding try_specific_gpus
  specific_outcome now id ids =
      let specific = id ∷ ids in
      if_ind (GpuOutcome specific) (any_in excluded_gpus specific) (λ _. inl (refl, refl))
        (λ e.
          if_ind (GpuOutcome specific) (any_busy w gpu_monitor now specific).0
            (λ _. inl (refl, refl))
            (λ f. inr (
              record {
                free = any_busy-Outside w gpu_monitor now specific f;
                allowed = any_in-Outside excluded_gpus specific e;
                fits = refl;
              },
              refl,
            )))

  auto_outcome : (now : ℕ) → GpuOutcome [] (try_auto_gpus w m now ngpu)
  unfolding try_auto_gpus Picked
  auto_outcome now =
      let available = get_available_gpus gpu_monitor (w.nvidia_smi now) in
      let picked = pick_gpus excluded_gpus ngpu [] available in
      let fit : Picked excluded_gpus gpu_monitor.allocated_gpus ngpu picked =
        pick_gpus-Picked excluded_gpus gpu_monitor.allocated_gpus ngpu [] available
          (tt, tt, omega arith) (get_available_gpus_lem gpu_monitor (w.nvidia_smi now)).1 in
      if_ind (GpuOutcome []) (ltz (size_of picked) ngpu) (λ _. inl (refl, refl))
        (λ f. inr (record { free = fit.0; allowed = fit.1; fits = full ngpu picked f fit.2 }, refl))

  pub try_gpus_outcome :
      (now : ℕ) (specific : List ℤ) → GpuOutcome specific (try_gpus w m now ngpu specific)
  unfolding try_gpus
  try_gpus_outcome now [] = auto_outcome now
  try_gpus_outcome now (id ∷ ids) = specific_outcome now id ids
