-- ===== src/I18n/Persistence.antt =====
-- The chosen locale of web/src/lib/i18n/index.tsx survives a reload.
use uni_llm.Prelude.{List, String, [], ap, arith, lookup-put_self, refl, true, ◌∙◌, ◌∷◌, ◌≡◌}
use uni_llm.Net.{Browser, set_item}
use uni_llm.I18n.{
  Locale, Provider, choose, choose_all, en_locale, locale_storage_key, locale_tag, mounted_provider,
  read_stored_locale, zh_cn_locale,
}

-- What the provider, the storage and the document say of the locale agrees.
pub record IsSettled (p : Provider) : Type 0 where
  pub is_mounted : p.mounted ≡ true
  pub stored : read_stored_locale p.browser ≡ p.locale
  pub shown : p.lang ≡ locale_tag p.locale
  pub in_window : p.browser.has_window ≡ true

read-set :
    (l : Locale) (b : Browser)
    → b.has_window ≡ true
    → read_stored_locale (set_item locale_storage_key (locale_tag l) b) ≡ l
unfolding read_stored_locale
read-set en_locale b w = rw (w, lookup-put_self locale_storage_key "en" b.storage)
read-set zh_cn_locale b w = rw (w, lookup-put_self locale_storage_key "zh-CN" b.storage)

locale-mounted :
    (b : Browser) (lang : String) → (mounted_provider b lang).locale ≡ read_stored_locale b
unfolding mounted_provider
locale-mounted b lang = refl

settled :
    (l : Locale) (b : Browser)
    → b.has_window ≡ true
    → IsSettled (record {
      locale = l;
      mounted = true;
      browser = set_item locale_storage_key (locale_tag l) b;
      lang = locale_tag l;
    })
settled l b w = record { is_mounted = refl; stored = read-set l b w; shown = refl; in_window = w }

-- In a browser, once the provider is mounted the storage, the document's language and the state name
-- the same locale.
pub mounted_provider-IsSettled :
    (b : Browser) (lang : String) → b.has_window ≡ true → IsSettled (mounted_provider b lang)
unfolding mounted_provider
mounted_provider-IsSettled b lang w = settled (read_stored_locale b) b w

choose-IsSettled : (l : Locale) (p : Provider) → IsSettled p → IsSettled (choose l p)
unfolding choose
choose-IsSettled l p h = simp h.is_mounted (settled l p.browser h.in_window)

choose_all-IsSettled : (ls : List Locale) (p : Provider) → IsSettled p → IsSettled (choose_all ls p)
unfolding choose_all
choose_all-IsSettled [] p h = h
choose_all-IsSettled (l ∷ ls) p h = choose_all-IsSettled ls (choose l p) (choose-IsSettled l p h)

abbrev pub last_of : Locale → List Locale → Locale
last_of l [] = l
last_of l (k ∷ ks) = last_of k ks

pub locale-choose : (l : Locale) (p : Provider) → (choose l p).locale ≡ l
unfolding choose
locale-choose l p = ground arith

locale-choose_all :
    (ls : List Locale) (p : Provider) → (choose_all ls p).locale ≡ last_of p.locale ls
unfolding choose_all
locale-choose_all [] p = refl
locale-choose_all (l ∷ ls) p =
    locale-choose_all ls (choose l p) ∙ ap (λ k. last_of k ls) (locale-choose l p)

-- In a browser, after the user's choices and a reload the provider shows the last chosen locale; with
-- no choice, the one that `readStoredLocale` took from the storage at first.
pub choose_then_reload :
    (b : Browser) (lang lang' : String) (ls : List Locale)
    → b.has_window ≡ true
    → (mounted_provider (choose_all ls (mounted_provider b lang)).browser lang').locale
      ≡ last_of (read_stored_locale b) ls
choose_then_reload b lang lang' ls w =
    let before = mounted_provider b lang in
    let settled_before = choose_all-IsSettled ls before (mounted_provider-IsSettled b lang w) in
    locale-mounted (choose_all ls before).browser lang'
    ∙ settled_before.stored
    ∙ locale-choose_all ls before
    ∙ ap (λ k. last_of k ls) (locale-mounted b lang)
