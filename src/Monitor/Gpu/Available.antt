-- ===== src/Monitor/Gpu/Available.antt =====
-- Which GPUs gpu_monitor.cpp reports as free.
use native.Mathlib.Nat.{zero-add}
use myqueue.Prelude.{
  ℕ, zero, suc, ◌+◌, ◌≤◌, ◌<◌, ◌≡◌, refl, true, false, some, List, [], ◌∷◌, arith, Option-cases,
  inl, inr, All, is_empty, subst, if_ind,
}
use myqueue.Prelude.Int.{ℤ, pos, negsuc, eqb_iff}
use myqueue.Prelude.Set.{contains}
use myqueue.Prelude.Text.{Bytes}
use myqueue.Monitor.Gpu.{
  GpuMonitor, GpuInfo, refresh_mock, assume_busy, mark_allocated, parse_nvidia_smi_output,
  query_gpus, find_device, device_available, available_from, get_available_gpus, rounds,
}

-- Every entry says truly whether its device is allocated.
abbrev Truthful : GpuMonitor → List GpuInfo → Type 0
Truthful m = All (λ g. g.is_allocated ≡ contains g.device_id m.allocated_gpus)

refresh_mock-Truthful : (m : GpuMonitor) (gs : List GpuInfo) → Truthful m (refresh_mock m gs)
unfolding refresh_mock
refresh_mock-Truthful m [] = tt
refresh_mock-Truthful m (g ∷ gs) = (refl, refresh_mock-Truthful m gs)

assume_busy-Truthful : (m : GpuMonitor) (i n : ℕ) → Truthful m (assume_busy m i n)
unfolding assume_busy
assume_busy-Truthful m i zero = tt
assume_busy-Truthful m i (suc n) = (refl, assume_busy-Truthful m (suc i) n)

mark_allocated-Truthful : (m : GpuMonitor) (gs : List GpuInfo) → Truthful m (mark_allocated m gs)
unfolding mark_allocated
mark_allocated-Truthful m [] = tt
mark_allocated-Truthful m (g ∷ gs) = (refl, mark_allocated-Truthful m gs)

query_gpus-Truthful : (m : GpuMonitor) (output : Bytes) → Truthful m (query_gpus m output)
unfolding query_gpus
query_gpus-Truthful m output =
    if_ind (Truthful m) m.mock_mode (λ _. refresh_mock-Truthful m m.mock_data)
      (λ _.
        if_ind (Truthful m) (is_empty output) (λ _. assume_busy-Truthful m 0 (rounds m.total_gpus))
          (λ _. mark_allocated-Truthful m (parse_nvidia_smi_output m output)))

find_device-Truthful :
    (m : GpuMonitor) (id : ℤ) (gs : List GpuInfo) (g : GpuInfo)
    → Truthful m gs
    → find_device id gs ≡ some g
    → g.is_allocated ≡ contains id m.allocated_gpus
unfolding find_device
find_device-Truthful m id [] g h e = cc
find_device-Truthful m id (x ∷ gs) g h e =
    ground (arith, eqb_iff x.device_id id, find_device-Truthful m id gs g h.1)

-- A device that counts as available is not allocated.
device_available_free :
    (m : GpuMonitor) (output : Bytes) (i : ℤ)
    → device_available m (query_gpus m output) i ≡ true
    → contains i m.allocated_gpus ≡ false
unfolding device_available
device_available_free m output i h = elim (Option-cases (find_device i (query_gpus m output))) [
  | inl e ↦ ground arith
  | inr (g, e) ↦
      ground
        (arith, find_device-Truthful m i (query_gpus m output) g (query_gpus-Truthful m output) e)
]

-- A list of ids, each above the one before, from `lo` on and below `hi`.
abbrev pub Rising : ℕ → ℕ → List ℤ → Type 0
Rising lo hi [] = Unit {0}
Rising lo hi (negsuc i ∷ is) = ⊥
Rising lo hi (pos i ∷ is) = (lo ≤ i) × (i < hi) × Rising (suc i) hi is

Rising-mono : (lo lo' hi : ℕ) (is : List ℤ) → lo ≤ lo' → Rising lo' hi is → Rising lo hi is
Rising-mono lo lo' hi [] h r = tt
Rising-mono lo lo' hi (negsuc i ∷ is) h r = r
Rising-mono lo lo' hi (pos i ∷ is) h r = (omega arith, r.1, r.2)

available_from-Rising :
    (m : GpuMonitor) (gs : List GpuInfo) (i n : ℕ) → Rising i (i + n) (available_from m gs i n)
unfolding available_from
available_from-Rising m gs i zero = tt
available_from-Rising m gs i (suc n) =
    let rest : Rising (suc i) (i + suc n) (available_from m gs (suc i) n) =
      subst (λ k. Rising (suc i) k (available_from m gs (suc i) n)) (omega arith)
        (available_from-Rising m gs (suc i) n) in
    if_ind (Rising i (i + suc n)) (device_available m gs (pos i))
      (λ _. (omega arith, omega arith, rest)) (λ _. Rising-mono i (suc i) _ _ (omega arith) rest)

available_from_free :
    (m : GpuMonitor) (output : Bytes) (i n : ℕ)
    → All (λ id. contains id m.allocated_gpus ≡ false) (available_from m (query_gpus m output) i n)
unfolding available_from
available_from_free m output i zero = tt
available_from_free m output i (suc n) =
    if_ind (All (λ id. contains id m.allocated_gpus ≡ false))
      (device_available m (query_gpus m output) (pos i))
      (λ e. (device_available_free m output (pos i) e, available_from_free m output (suc i) n))
      (λ _. available_from_free m output (suc i) n)

-- The GPUs reported as available come in rising order, exist, and are not allocated.
pub get_available_gpus_lem :
    (m : GpuMonitor) (output : Bytes)
    → Rising 0 (rounds m.total_gpus) (get_available_gpus m output)
      × All (λ id. contains id m.allocated_gpus ≡ false) (get_available_gpus m output)
unfolding get_available_gpus
get_available_gpus_lem m output = (
  rw zero-add at (available_from-Rising m (query_gpus m output) 0 (rounds m.total_gpus)),
  available_from_free m output 0 (rounds m.total_gpus),
)
