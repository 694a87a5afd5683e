-- ===== src/Quota/Laws.antt =====
-- Overrides and the order of the built-in limits.
use setlyst_api.Prelude.{ℕ, ◌≤◌, ◌≡◌, refl, Option, arith, unwrap_or}
use setlyst_api.Quota.{
  QuotaResource, songs, artists, setlists, gigs, tags, bands_owned, band_memberships, band_members,
  band_setlists, band_gigs, band_songs, setlist_items, tours, band_tours, QuotaLimits,
  QuotaOverrides, get, with_overrides, default, unverified, free,
}

-- The override of a resource.
abbrev pub override_of : QuotaOverrides → QuotaResource → Option ℕ
override_of o songs = o.songs
override_of o artists = o.artists
override_of o setlists = o.setlists
override_of o gigs = o.gigs
override_of o tags = o.tags
override_of o bands_owned = o.bands_owned
override_of o band_memberships = o.band_memberships
override_of o band_members = o.band_members
override_of o band_setlists = o.band_setlists
override_of o band_gigs = o.band_gigs
override_of o band_songs = o.band_songs
override_of o setlist_items = o.setlist_items
override_of o tours = o.tours
override_of o band_tours = o.band_tours

-- An override replaces the limit of its own resource and of no other.
pub get-with_overrides :
    (l : QuotaLimits) (o : QuotaOverrides) (r : QuotaResource)
    → get (with_overrides l o) r ≡ unwrap_or (override_of o r) (get l r)
unfolding get with_overrides
get-with_overrides l o songs = refl
get-with_overrides l o _ = refl

-- For every resource an unverified account may have at most what the free tier gives, and the
-- free tier at most what the beta gives.
pub tiers_ordered :
    (r : QuotaResource) → (get unverified r ≤ get free r) × (get free r ≤ get default r)
unfolding get
tiers_ordered songs = (omega arith, omega arith)
tiers_ordered _ = (omega arith, omega arith)
