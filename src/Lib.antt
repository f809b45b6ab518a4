-- ===== src/Lib.antt =====
-- A verification library for the Magento 2 customer GraphQL service.
--
-- The service answers GraphQL requests on Magento's own database: accounts, logins, password
-- resets, address books, wishlists and orders. A request enters at graph/schema.resolvers.go, which
-- calls CustomerService (internal/service), which reads and writes tables by the repositories
-- (internal/repository).
--
-- - World and Env: the tables, the caches and the outbox (World); the request's context, the
--   configuration, the clock, randomness, hash functions and the database's collation (Env). What
--   is not part of the repository (magento2-go-common, golang.org/x/crypto, the SQL driver, the
--   layouts of Go's time package) is a field of Env.
-- - World.Monad: a Go function that may fail is an Action, from a world to an outcome (a value, an
--   error, a panic) and the world it leaves. Every statement takes its fate from the list `faults`
--   of the world, so a theorem for all worlds covers every pattern of failing statements; a failed
--   statement changes no table, and earlier writes stay.
-- - Repository.Customer, Repository.Password: internal/repository/customer.go. Repository.Address:
--   address.go. Repository.Token: token.go. Repository.Newsletter: newsletter.go. Repository.Cache:
--   store.go and group.go. Repository.Wishlist: wishlist.go, with GetItems in
--   Repository.Wishlist.Reading on the tables of World.Catalog. Repository.Attributes:
--   eav_attribute.go, on the tables of World.Attributes. Repository.Sql: the statements on a table
--   as functions on a list of rows.
-- - Repository.Orders: order.go, on the tables of World.Orders. Repository.Orders has the text and
--   the arguments of the two statements of FindByCustomerID, Repository.Orders.Conditions the rows
--   they pick, Repository.Orders.Scanning the loop over
--   the rows, Repository.Orders.Parts the loads of what belongs to orders, to invoices, to
--   shipments and to credit memos, Repository.Orders.Labels the labels of statuses.
-- - Service.Tokens, Service.Accounts, Service.Reset, Service.Addresses:
--   internal/service/customer.go. Service.Password: password.go. Service.Security: security.go.
--   Service.Mapper: mapper.go. Service.Attributes: GetCustomAttributes of customer.go and
--   resolveSelectOptions of mapper.go.
-- - Service.Orders: orders.go. Service.Orders has mapFilter and mapSort, Service.Orders.Mapping the
--   mapping of each part, Service.Orders.Listing mapOrder and GetOrders. Service.Orders.Reference
--   is the page of orders as it is read off the tables, with no statement, no batch and no map.
-- - Model: graph/model/models_gen.go. Graph, Graph.Wishlists with Graph.Wishlists.Listing,
--   Graph.Resolvers: graph/helpers.go and the resolvers of graph/schema.resolvers.go that do more
--   than call the service. Graph.Requests: a request is the choice of a resolver with its
--   arguments. Errors, Errors.Messages: internal/errors/messages.go, and the error presenter of
--   internal/app/app.go.
-- - History: a history is a sequence of requests of all kinds, each with its own context, while the
--   list of the statements to fail changes at any time between them. History.Statements to
--   History.Visitors say which tables an operation leaves alone.
-- - Go: strconv, strings, hex, base64 and the decoding of runes, as far as the code uses them. A
--   text is its list of bytes.
-- - Tests: a small shop at which the theorems are applied.
--
-- No loop of the code needs fuel: each is a recursion on a list. Ids and counts, the numbers and
-- sizes of pages among them, are natural numbers; the offset of a page and the number of pages of
-- the orders, and the ends of a slice of the address book, are signed integers that wrap at 64 bits
-- (Go.Int), as in the source. A row of the sales tables may fail to scan (World.Orders). A request runs alone: interleavings of requests, and the mutexes that guard the caches,
-- are not modelled. The clock stands still during a request. The map of the fields of an update is
-- a list of entries, and its random order that of the list. The seven loads that GetOrders starts
-- at once run one after the other, up to the first that fails. A double is its 64 bits, and how the
-- database compares, sorts and matches values is part of Env. Not modelled: internal/config and the
-- rest of internal/app, which call libraries that are not part of the repository;
-- graph/generated.go, which gqlgen generates; logging
pub mod Base
pub mod Go
pub mod Errors
pub mod World
pub mod Env
pub mod Repository
pub mod Model
pub mod Service
pub mod Graph
pub mod History
pub mod Tests
