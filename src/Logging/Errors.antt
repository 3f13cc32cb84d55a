-- ===== src/Logging/Errors.antt =====
-- src/logging/common.cc: the names of the error numbers of Linux.
use Prim.Native.String.{String}
use text.Mathlib.Text
use text.Mathlib.TextEquality.{eq_iff}
use mathlib.Core.Option.{some-injective}
use libni.Base.{
  ℕ, zero, suc, ◌+◌, ◌≡◌, ◌≢◌, refl, sym, ap, ◌∙◌, arith, Bool, true, false, List, [], ◌∷◌, Option,
  some, ◌==◌, if◌then◌else◌, get_elem?, ==_iff, ◌⊎◌, inl, inr,
}

abbrev pub errno_names : List String
errno_names =
    "" ∷ "EPERM" ∷ "ENOENT" ∷ "ESRCH" ∷ "EINTR" ∷ "EIO" ∷ "ENXIO" ∷ "E2BIG" ∷ "ENOEXEC" ∷ "EBADF"
    ∷ "ECHILD" ∷ "EAGAIN/EWOULDBLOCK" ∷ "ENOMEM" ∷ "EACCES" ∷ "EFAULT" ∷ "ENOTBLK" ∷ "EBUSY"
    ∷ "EEXIST" ∷ "EXDEV" ∷ "ENODEV" ∷ "ENOTDIR" ∷ "EISDIR" ∷ "EINVAL" ∷ "ENFILE" ∷ "EMFILE"
    ∷ "ENOTTY" ∷ "ETXTBSY" ∷ "EFBIG" ∷ "ENOSPC" ∷ "ESPIPE" ∷ "EROFS" ∷ "EMLINK" ∷ "EPIPE" ∷ "EDOM"
    ∷ "ERANGE" ∷ "EDEADLK/EDEADLOCK" ∷ "ENAMETOOLONG" ∷ "ENOLCK" ∷ "ENOSYS" ∷ "ENOTEMPTY" ∷ "ELOOP"
    ∷ "" ∷ "ENOMSG" ∷ "EIDRM" ∷ "ECHRNG" ∷ "EL2NSYNC" ∷ "EL3HLT" ∷ "EL3RST" ∷ "ELNRNG" ∷ "EUNATCH"
    ∷ "ENOCSI" ∷ "EL2HLT" ∷ "EBADE" ∷ "EBADR" ∷ "EXFULL" ∷ "ENOANO" ∷ "EBADRQC" ∷ "EBADSLT" ∷ ""
    ∷ "EBFONT" ∷ "ENOSTR" ∷ "ENODATA" ∷ "ETIME" ∷ "ENOSR" ∷ "ENONET" ∷ "ENOPKG" ∷ "EREMOTE"
    ∷ "ENOLINK" ∷ "EADV" ∷ "ESRMNT" ∷ "ECOMM" ∷ "EPROTO" ∷ "EMULTIHOP" ∷ "EDOTDOT" ∷ "EBADMSG"
    ∷ "EOVERFLOW" ∷ "ENOTUNIQ" ∷ "EBADFD" ∷ "EREMCHG" ∷ "ELIBACC" ∷ "ELIBBAD" ∷ "ELIBSCN"
    ∷ "ELIBMAX" ∷ "ELIBEXEC" ∷ "EILSEQ" ∷ "ERESTART" ∷ "ESTRPIPE" ∷ "EUSERS" ∷ "ENOTSOCK"
    ∷ "EDESTADDRREQ" ∷ "EMSGSIZE" ∷ "EPROTOTYPE" ∷ "ENOPROTOOPT" ∷ "EPROTONOSUPPORT"
    ∷ "ESOCKTNOSUPPORT" ∷ "EOPNOTSUPP/ENOTSUP" ∷ "EPFNOSUPPORT" ∷ "EAFNOSUPPORT" ∷ "EADDRINUSE"
    ∷ "EADDRNOTAVAIL" ∷ "ENETDOWN" ∷ "ENETUNREACH" ∷ "ENETRESET" ∷ "ECONNABORTED" ∷ "ECONNRESET"
    ∷ "ENOBUFS" ∷ "EISCONN" ∷ "ENOTCONN" ∷ "ESHUTDOWN" ∷ "ETOOMANYREFS" ∷ "ETIMEDOUT"
    ∷ "ECONNREFUSED" ∷ "EHOSTDOWN" ∷ "EHOSTUNREACH" ∷ "EALREADY" ∷ "EINPROGRESS" ∷ "ESTALE"
    ∷ "EUCLEAN" ∷ "ENOTNAM" ∷ "ENAVAIL" ∷ "EISNAM" ∷ "EREMOTEIO" ∷ "EDQUOT" ∷ "ENOMEDIUM"
    ∷ "EMEDIUMTYPE" ∷ "ECANCELED" ∷ "ENOKEY" ∷ "EKEYEXPIRED" ∷ "EKEYREVOKED" ∷ "EKEYREJECTED"
    ∷ "EOWNERDEAD" ∷ "ENOTRECOVERABLE" ∷ "ERFKILL" ∷ "EHWPOISON" ∷ []

-- `NI_ERR_NAME`: `none` is a read out of bounds.
abbrev pub errno_name : ℕ → Option String
errno_name number = get_elem? errno_names number

-- The first position of a text.
abbrev position : String → List String → ℕ
position s [] = 0
position s (t ∷ ts) = if Text.◌==◌ t s then 0 else suc (position s ts)

-- Each text from the position `i` on is empty, or stands nowhere before its position in `all`.
abbrev all_first : List String → ℕ → List String → Bool
all_first all i [] = true
all_first all i (t ∷ ts) =
    if (if Text.◌==◌ t "" then true else position t all == i)
    then all_first all (suc i) ts
    else false

names_first : all_first errno_names 0 errno_names ≡ true
names_first = refl

both : (a b : Bool) → (if a then b else false) ≡ true → (a ≡ true) × (b ≡ true)
both true b e = (refl, e)
both false b e = cc e

either : (a b : Bool) → (if a then true else b) ≡ true → (a ≡ true) ⊎ (b ≡ true)
either true b e = inl refl
either false b e = inr e

first_position :
    (all ts : List String) (i j : ℕ) (s : String)
    → all_first all i ts ≡ true
    → get_elem? ts j ≡ some s
    → s ≢ ""
    → position s all ≡ i + j
first_position all [] i j s ok at ne = cc at
first_position all (t ∷ ts) i zero s ok at ne =
    let same : t ≡ s = some-injective _ _ at in
    elim (either (Text.◌==◌ t "") (position t all == i) (both _ (all_first all (suc i) ts) ok).0) [
      | inl nothing ↦ absurd (ne (sym same ∙ (eq_iff t "").0 nothing))
      | inr here ↦
          omega
            (arith, ap (λ (u : String). position u all) same, (==_iff (position t all) i).0 here)
    ]
first_position all (t ∷ ts) i (suc j) s ok at ne =
    omega (arith, first_position all ts (suc i) j s (both _ _ ok).1 at ne)

-- Different numbers have different names, but for those whose name is empty.
pub errno_names_differ :
    (a b : ℕ) (s : String) → errno_name a ≡ some s → errno_name b ≡ some s → s ≢ "" → a ≡ b
errno_names_differ a b s at_a at_b ne = omega (
  arith,
  first_position errno_names errno_names 0 a s names_first at_a ne,
  first_position errno_names errno_names 0 b s names_first at_b ne,
)
