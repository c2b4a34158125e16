-- ===== src/Http/HttpServer/Accounts.antt =====
-- Registration and login against the table of users.
use carf_lib.Shared.{
  ◌≡◌, refl, ap, ◌∙◌, subst, ◌≢◌, ◌⊎◌, inl, inr, Bool, true, false, Option, none, some, arith,
  if◌then◌else◌, Option-cases, ◌>>=◌, Bytes, codes, bytes_eq, bytes_eq_iff,
}
use Prim.Native.String.{String}
use carf_lib.Shared.StdMap.{insert, lookup, bytes_key, lookup-insert}
use carf_lib.Http.HttpRequest.{HttpRequest}
use carf_lib.Http.HttpServer.{Host, Users, Form, read_form, register_user, login_page, page_of}

bytes_eq_refl : (s : Bytes) → bytes_eq s s ≡ true
bytes_eq_refl s = (bytes_eq_iff s s).1 refl

lookup-insert_self :
    (k v : Bytes) (m : Users) → lookup k m ≡ none → lookup k (insert k v m) ≡ some v
lookup-insert_self k v m h = rw (lookup-insert k k v m h, bytes_eq_refl k)

register_user-keeps :
    (host : Host) (users : Users) (form : Form) (name passwd : Bytes)
    → lookup name users ≡ some passwd
    → lookup name (register_user host users form).1 ≡ some passwd
unfolding register_user
register_user-keeps host users form name passwd h =
    ground (arith, lookup-insert form.name name form.password users, bytes_eq_iff form.name name)

-- The two form pages, with a body that can be read.
page_of_register :
    (host : Host) (users : Users) (req : HttpRequest) (form : Form)
    → req.path ≡ codes "/3CGISQL.cgi"
    → read_form req.body ≡ some form
    → page_of host users req ≡ some (register_user host users form)
unfolding page_of bytes_eq
page_of_register host users req form p b = rw (p, page_of) (rw b)

page_of_login :
    (host : Host) (users : Users) (req : HttpRequest) (form : Form)
    → req.path ≡ codes "/2CGISQL.cgi"
    → read_form req.body ≡ some form
    → page_of host users req ≡ some (login_page users form, users)
unfolding page_of bytes_eq
page_of_login host users req form p b = rw (p, page_of) (rw b)

login_page_iff :
    (users : Users) (form : Form)
    → (lookup form.name users ≡ some form.password
        → login_page users form ≡ codes "/root/welcome.html")
      × (lookup form.name users ≢ some form.password
          → login_page users form ≡ codes "/root/logError.html")
unfolding login_page
login_page_iff users form = elim (Option-cases (lookup form.name users)) [
  | inl e ↦ (λ h. ground arith, λ h. rw (e, login_page))
  | inr (w, e) ↦ (
    λ h. ground (arith, bytes_eq_iff w form.password),
    λ h. ground (arith, bytes_eq_iff w form.password),
  )
]

-- A login request whose form can be read shows the welcome page if the table has the name with exactly
-- this password, and the error page in all other cases; it changes no account.
pub login_decides :
    (host : Host) (users : Users) (req : HttpRequest) (form : Form)
    → req.path ≡ codes "/2CGISQL.cgi"
    → read_form req.body ≡ some form
    → (lookup form.name users ≡ some form.password
        → page_of host users req ≡ some (codes "/root/welcome.html", users))
      × (lookup form.name users ≢ some form.password
          → page_of host users req ≡ some (codes "/root/logError.html", users))
login_decides host users req form p b =
    let page = page_of_login host users req form p b in
    let iff = login_page_iff users form in
    (
      λ h. page ∙ ap (λ t. some (t, users)) (iff.0 h),
      λ h. page ∙ ap (λ t. some (t, users)) (iff.1 h),
    )

-- Registering a name that is free, where the database takes the statement, shows the login page, and a
-- login with the same form then shows the welcome page.
pub register_then_login :
    (host : Host) (users : Users) (first second : HttpRequest) (form : Form)
    → first.path ≡ codes "/3CGISQL.cgi"
    → second.path ≡ codes "/2CGISQL.cgi"
    → read_form first.body ≡ some form
    → read_form second.body ≡ some form
    → lookup form.name users ≡ none
    → host.query form.statement ≡ true
    → (users' : Users) × (page_of host users first ≡ some (codes "/root/log.html", users'))
      × (page_of host users' second ≡ some (codes "/root/welcome.html", users'))
unfolding register_user
register_then_login host users first second form p1 p2 b1 b2 free done =
    let users' : Users = insert form.name form.password users in
    (
      users',
      page_of_register host users first form p1 b1 ∙ rw (free, done, register_user),
      (login_decides host users' second form p2 b2).0
          (lookup-insert_self form.name form.password users free),
    )

-- Registering a name that is taken, or one that the database refuses, shows the error page and leaves
-- the table as it is.
pub register_refused :
    (host : Host) (users : Users) (req : HttpRequest) (form : Form)
    → req.path ≡ codes "/3CGISQL.cgi"
    → read_form req.body ≡ some form
    → (lookup form.name users ≢ none) ⊎ (host.query form.statement ≡ false)
    → page_of host users req ≡ some (codes "/root/registerError.html", users)
unfolding register_user
register_refused host users req form p b h = page_of_register host users req form p b ∙ ground arith

-- The account `name` with this password is still there afterwards.
Keeps : Bytes → Bytes → Option (Bytes × Users) → Type 0
Keeps name passwd none = Unit {0}
Keeps name passwd (some (page, users)) = lookup name users ≡ some passwd

module _ (name passwd : Bytes) where
  Keeps-some :
      (page : Bytes) (users : Users)
      → lookup name users ≡ some passwd
      → Keeps name passwd (some (page, users))
  unfolding Keeps
  Keeps-some page users h = h

  Keeps-if :
      (b : Bool) (x y : Option (Bytes × Users))
      → Keeps name passwd x
      → Keeps name passwd y
      → Keeps name passwd (if b then x else y)
  Keeps-if true x y h k = h
  Keeps-if false x y h k = k

  Keeps-form :
      (form : Option Form) (k : Form → Bytes × Users)
      → ((f : Form) → lookup name (k f).1 ≡ some passwd)
      → Keeps name passwd (form >>= λ f. some (k f))
  unfolding Keeps
  Keeps-form none k h = tt
  Keeps-form (some f) k h = h f

page_of-Keeps :
    (host : Host) (users : Users) (req : HttpRequest) (name passwd : Bytes)
    → lookup name users ≡ some passwd
    → Keeps name passwd (page_of host users req)
unfolding page_of
page_of-Keeps host users req name passwd h = at "/" _ _ (same _) (
    at "/0" _ _ (same _) (
      at "/1" _ _ (same _) (
        at "/3CGISQL.cgi" _ _
          (Keeps-form name passwd (read_form req.body) (register_user host users)
            (λ f. register_user-keeps host users f name passwd h))
          (at "/2CGISQL.cgi" _ _
            (Keeps-form name passwd (read_form req.body) (λ f. (login_page users f, users))
              (λ f. h))
            (at "/5" _ _ (same _) (at "/6" _ _ (same _) (at "/7" _ _ (same _) (same _))))))))
  where
    same : (page : Bytes) → Keeps name passwd (some (page, users))
    same page = Keeps-some name passwd page users h

    at :
        (path : String) (x y : Option (Bytes × Users))
        → Keeps name passwd x
        → Keeps name passwd y
        → Keeps name passwd (if bytes_eq req.path (codes path) then x else y)
    at path x y = Keeps-if name passwd (bytes_eq req.path (codes path)) x y

-- No request, on any of the pages, removes an account or changes its password.
pub accounts_kept :
    (host : Host) (users users' : Users) (req : HttpRequest) (page name passwd : Bytes)
    → page_of host users req ≡ some (page, users')
    → lookup name users ≡ some passwd
    → lookup name users' ≡ some passwd
unfolding Keeps
accounts_kept host users users' req page name passwd e h =
    subst (Keeps name passwd) e (page_of-Keeps host users req name passwd h)
