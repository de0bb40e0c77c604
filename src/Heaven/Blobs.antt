-- ===== src/Heaven/Blobs.antt =====
-- heaven/blob.go: the store keeps a text under its hash. SHA-256 and the outcome of a write are
-- parameters; a file of the store is only ever written by `put_blob`.
use genesis_ssmp.Base.{
  ◌≡◌, ◌⊎◌, refl, sym, subst, inl, inr, Option, none, some, arith, if◌then◌else◌, Bytes, same,
  same_iff, same_refl, Dict, get, put, get-put, Option-cases, Bool-cases,
}

-- A write is done, or fails and leaves what it says of the new file: nothing, or a part of the text.
pub data WriteOutcome : Type 0 where
  done : WriteOutcome
  failed : Option Bytes → WriteOutcome

-- `write` is the outcome of a write in the call at hand; another call may have another host.
pub record BlobHost : Type 0 where
  pub sha256 : Bytes → Bytes
  pub write : Bytes → WriteOutcome

abbrev pub left_at : Bytes → Option Bytes → Dict Bytes → Dict Bytes
left_at id none blobs = blobs
left_at id (some part) blobs = put id part blobs

-- `Put` of a text that has no file.
abbrev pub put_new : Bytes → Bytes → Dict Bytes → WriteOutcome → Dict Bytes × Option Bytes
put_new id content blobs done = (put id content blobs, some id)
put_new id content blobs (failed left) = (left_at id left blobs, none)

-- `Put`; `none` is its error. A file that is there is taken for the whole text.
unfoldable pub put_blob : BlobHost → Bytes → Dict Bytes → Dict Bytes × Option Bytes
put_blob host content blobs = elim (get (host.sha256 content) blobs) [
  | some _ ↦ (blobs, some (host.sha256 content))
  | none ↦ put_new (host.sha256 content) content blobs (host.write content)
]

-- `Get`
unfoldable pub get_blob : Bytes → Dict Bytes → Option Bytes
get_blob id blobs = get id blobs

-- Every text is kept under its hash.
abbrev pub Addressed : BlobHost → Option Bytes → Bytes → Type 0
Addressed host none id = Unit
Addressed host (some c) id = host.sha256 c ≡ id

-- What a `Put` of `content` leaves: on an error what the write has left under the hash of the text; else
-- the text under its hash; and every other text as it was.
abbrev pub Stored : BlobHost → Bytes → Dict Bytes → Dict Bytes × Option Bytes → Bytes → Type 0
Stored host content blobs (after, none) j =
    (left : Option Bytes) × (host.write content ≡ failed left)
    × (get_blob j after ≡ (if same (host.sha256 content) j then left else get_blob j blobs))
Stored host content blobs (after, some id) j =
    (id ≡ host.sha256 content)
    × (get_blob id after ≡ some content)
    × (get_blob j after ≡ (if same id j then some content else get_blob j blobs))

-- Every text is kept under its hash but for a part that a failed write of `content` left.
abbrev pub StaysAddressed : BlobHost → Bytes → Dict Bytes → Bytes → Type 0
StaysAddressed host content after j =
    Addressed host (get_blob j after) j
    ⊎ ((part : Bytes) × (host.write content ≡ failed (some part))
        × (get_blob j after ≡ some part)
        × (j ≡ host.sha256 content))

put_new-Stored :
    (host : BlobHost) (content : Bytes) (blobs : Dict Bytes) (j : Bytes)
    → Stored host content blobs
        (put (host.sha256 content) content blobs, some (host.sha256 content))
        j
unfolding get_blob
put_new-Stored host content blobs j =
    let id = host.sha256 content in
    (refl, ground (arith, get-put id id content blobs, same_refl id), get-put id j content blobs)

put_new-Addressed :
    (host : BlobHost) (content : Bytes) (blobs : Dict Bytes) (j : Bytes)
    → Addressed host (get_blob j blobs) j
    → Addressed host (get_blob j (put (host.sha256 content) content blobs)) j
unfolding get_blob
put_new-Addressed host content blobs j h =
    let id = host.sha256 content in
    elim (Bool-cases (same id j)) [
      | inl e ↦ rw (get-put id j content blobs, e) ((same_iff id j).0 e)
      | inr e ↦ rw (get-put id j content blobs, e) h
    ]

put_failed-Stored :
    (host : BlobHost) (content : Bytes) (blobs : Dict Bytes) (j : Bytes) (left : Option Bytes)
    → host.write content ≡ failed left
    → get (host.sha256 content) blobs ≡ none
    → Stored host content blobs (left_at (host.sha256 content) left blobs, none) j
unfolding get_blob
put_failed-Stored host content blobs j none w e =
    (none, w, ground (arith, e, same_iff (host.sha256 content) j))
put_failed-Stored host content blobs j (some part) w e =
    (some part, w, get-put (host.sha256 content) j part blobs)

put_failed-StaysAddressed :
    (host : BlobHost) (content : Bytes) (blobs : Dict Bytes) (j : Bytes) (left : Option Bytes)
    → host.write content ≡ failed left
    → Addressed host (get_blob j blobs) j
    → StaysAddressed host content (left_at (host.sha256 content) left blobs) j
unfolding get_blob
put_failed-StaysAddressed host content blobs j none w h = inl h
put_failed-StaysAddressed host content blobs j (some part) w h =
    let id = host.sha256 content in
    elim (Bool-cases (same id j)) [
      | inl e ↦ inr (part, w, rw (get-put id j part blobs, e) refl, sym ((same_iff id j).0 e))
      | inr e ↦ inl (rw (get-put id j part blobs, e) h)
    ]

-- In a store that keeps every text under its hash, and where no two texts have one hash, a `Put`
-- that returns an identifier returns the hash of the text, a `Get` of it returns the text whether
-- it was there before or not, and no other text changes; a `Put` fails only if its write does, and
-- then changes nothing but what the write left under the hash of the text. The store still keeps
-- every text under its hash, except for a part that a failed write left.
pub put_blob-Stored :
    (host : BlobHost) (content : Bytes) (blobs : Dict Bytes) (j : Bytes)
    → ((a b : Bytes) → host.sha256 a ≡ host.sha256 b → a ≡ b)
    → ((id : Bytes) → Addressed host (get_blob id blobs) id)
    → Stored host content blobs (put_blob host content blobs) j
      × StaysAddressed host content (put_blob host content blobs).0 j
unfolding put_blob get_blob
put_blob-Stored host content blobs j injective addressed =
    let id = host.sha256 content in
    elim (Option-cases (get id blobs)) [
      | inr (old, e) ↦
          let same_text : old ≡ content =
            injective old content (subst (λ o. Addressed host o id) e (addressed id)) in
          let kept : get id blobs ≡ some content = rw (e, same_text) refl in
          rw (e, put_blob) ((refl, kept, ground (arith, kept, same_iff id j)), inl (addressed j))
      | inl e ↦ rw (e, put_blob) (go (host.write content) refl e)
    ]
  where
    go :
        (w : WriteOutcome)
        → host.write content ≡ w
        → get (host.sha256 content) blobs ≡ none
        → Stored host content blobs (put_new (host.sha256 content) content blobs w) j
          × StaysAddressed host content (put_new (host.sha256 content) content blobs w).0 j
    go done w e = (
      put_new-Stored host content blobs j,
      inl (put_new-Addressed host content blobs j (addressed j)),
    )
    go (failed left) w e = (
      put_failed-Stored host content blobs j left w e,
      put_failed-StaysAddressed host content blobs j left w (addressed j),
    )

-- A part that a failed write left is taken for the text: `Put` succeeds, and `Get` returns the part.
put_blob-part :
    (host : BlobHost) (content part : Bytes) (write' : Bytes → WriteOutcome) (blobs : Dict Bytes)
    → get (host.sha256 content) blobs ≡ none
    → host.write content ≡ failed (some part)
    → let (after, again) =
        put_blob (record host { write = write' }) content (put_blob host content blobs).0 in
      (again ≡ some (host.sha256 content)) × (get_blob (host.sha256 content) after ≡ some part)
unfolding put_blob get_blob
put_blob-part host content part write' blobs e w =
    let id = host.sha256 content in ground (arith, e, w, get-put id id part blobs, same_refl id)
