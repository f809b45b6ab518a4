-- ===== src/History.antt =====
-- What a running server leaves: requests of graph/schema.resolvers.go, one after the other, while
-- the database has its failures.
pub mod Statements
pub mod Profiles
pub mod Accounts
pub mod Resets
pub mod Orders
pub mod Wishlists
pub mod Attributes
pub mod Addresses
pub mod Passwords
pub mod Visitors
pub mod Takeover
pub mod Credentials
use magento2_customer_graphq.Base.{Bool, List}
use magento2_customer_graphq.Env.{Env}
use magento2_customer_graphq.World.{World}
use magento2_customer_graphq.Graph.Requests.{Request, handle}

-- A step from one world to the next. A request, and its context with the customer and the clock,
-- are ones that `P` allows in the world they meet; which of the statements to come fail changes at any time.
pub data Step (P : Env → Request → World → Type 0) : World → World → Type 0 where
  request : (env : Env) (r : Request) (w : World) → P env r w → Step P w (handle env r w).1
  weather : (failing : List Bool) → (w : World) → Step P w (record w { faults = failing })

infixr 5 ◌then◌
pub data History (P : Env → Request → World → Type 0) : World → World → Type 0 where
  start : (w : World) → History P w w
  ◌then◌ : {u v w : World} → Step P u v → History P v w → History P u w
