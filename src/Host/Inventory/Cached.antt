-- ===== src/Host/Inventory/Cached.antt =====
-- That a scan answers the calls after it.
use backr.Base.{
  if◌then◌else◌, Bool-cases, Text, eq_text, eq_text→≡, Result, ok, err, ◌≡◌, sym, ap, ◌∙◌, inl, inr,
  true, false, Option, none, some, [],
}
use backr.Host.Inventory.{
  HostDiskInventory, DuCacheFile, DuWorld, ScanError, inventory_from_scan, cache_entry_to_inventory,
  about,
}

about-root :
    (root : Text) (cached : Option DuCacheFile) (doc : DuCacheFile)
    → about root cached ≡ some doc
    → (cached ≡ some doc) × (doc.backup_root ≡ root)
unfolding about
about-root root none doc h = cc
about-root root (some d) doc h = elim (Bool-cases (eq_text d.backup_root root)) [
  | inl same ↦
      let e : some d ≡ some doc = rw (about, same) at h in
      (
        e,
        ap (λ o. elim o [ none ↦ [] | some x ↦ x.backup_root ]) (sym e)
            ∙ eq_text→≡ d.backup_root root same,
      )
  | inr other ↦ let e = rw (about, other) at h in cc
]

-- how a call can end
data Outcome (world : DuWorld) (root : Text) (cached : Option DuCacheFile)
    : Option DuCacheFile × Result HostDiskInventory ScanError → Type 0 where
  from_file :
      (doc : DuCacheFile)
      → about root cached ≡ some doc
      → Outcome world root cached (cached, ok (cache_entry_to_inventory doc true))
  from_scan :
      (doc : DuCacheFile)
      → inventory_from_scan world root ≡ ok doc
      → Outcome world root cached
          ((if world.writable then some doc else cached), ok (cache_entry_to_inventory doc false))
  failed : (e : ScanError) → Outcome world root cached (cached, err e)
