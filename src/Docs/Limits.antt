-- ===== src/Docs/Limits.antt =====
-- The last sections of `SECTIONS` in web/src/app/docs/page.tsx, line by line.
use uni_llm.Prelude.{List, String, [], ◌∷◌}

abbrev pub errors_lines : List String
errors_lines =
    "## Error Responses" ∷ "" ∷ "All errors follow this format:" ∷ "" ∷ "```json" ∷ "{"
    ∷ "  \"error\": {" ∷ "    \"message\": \"description of the error\","
    ∷ "    \"type\": \"error_type\"" ∷ "  }" ∷ "}" ∷ "```" ∷ "" ∷ "### Error Types" ∷ ""
    ∷ "| HTTP Code | Type | Description |" ∷ "|-----------|------|-------------|"
    ∷ "| 400 | invalid_request_error | Malformed request body or missing required fields |"
    ∷ "| 401 | authentication_error | Invalid or missing API key |"
    ∷ "| 402 | billing_error | Insufficient balance - top up your account |"
    ∷ "| 404 | invalid_request_error | Model not found or endpoint does not exist |"
    ∷ "| 413 | invalid_request_error | Request body too large (max 10MB) |"
    ∷ "| 422 | invalid_request_error | Valid JSON but invalid parameter values |"
    ∷ "| 429 | rate_limit_error | Rate limit exceeded - retry after backoff |"
    ∷ "| 500 | internal_error | Unexpected server error - retry the request |"
    ∷ "| 502 | upstream_error | Provider returned an error or is unavailable |"
    ∷ "| 503 | service_unavailable | Service temporarily overloaded |"
    ∷ "| 504 | timeout_error | Request timed out waiting for provider |" ∷ "" ∷ "### Retry Strategy"
    ∷ "" ∷ "For transient errors (429, 500, 502, 503, 504), implement exponential backoff:" ∷ ""
    ∷ "```python" ∷ "import time" ∷ "import random" ∷ ""
    ∷ "def request_with_retry(func, max_retries=3):" ∷ "    for attempt in range(max_retries):"
    ∷ "        try:" ∷ "            return func()" ∷ "        except Exception as e:"
    ∷ "            if attempt == max_retries - 1:" ∷ "                raise"
    ∷ "            status = getattr(e, 'status_code', 0)"
    ∷ "            if status not in (429, 500, 502, 503, 504):" ∷ "                raise"
    ∷ "            wait = (2 ** attempt) + random.random()" ∷ "            time.sleep(wait)" ∷ "```"
    ∷ "" ∷ "### Error Handling in JavaScript" ∷ "" ∷ "```typescript" ∷ "try {"
    ∷ "  const response = await client.chat.completions.create({" ∷ "    model: \"deepseek-v3\","
    ∷ "    messages: [{ role: \"user\", content: \"Hello!\" }]," ∷ "  });" ∷ "} catch (error) {"
    ∷ "  if (error instanceof OpenAI.APIError) {" ∷ "    console.error(\"Status:\", error.status);"
    ∷ "    console.error(\"Message:\", error.message);" ∷ "    if (error.status === 429) {"
    ∷ "      // Handle rate limiting - wait and retry" ∷ "    }" ∷ "  }" ∷ "}" ∷ "```" ∷ []

abbrev pub ratelimits_lines : List String
ratelimits_lines =
    "## Rate Limits" ∷ ""
    ∷ "UniLLM enforces rate limits to ensure fair usage and platform stability." ∷ ""
    ∷ "### Default Limits" ∷ ""
    ∷ "| Tier | Requests per Minute | Tokens per Minute | Concurrent Requests |"
    ∷ "|------|--------------------|--------------------|---------------------|"
    ∷ "| Free | 20 | 40,000 | 5 |" ∷ "| Standard | 200 | 400,000 | 20 |"
    ∷ "| Pro | 1,000 | 2,000,000 | 50 |" ∷ "" ∷ "### Rate Limit Headers" ∷ ""
    ∷ "Every API response includes rate limit headers:" ∷ "" ∷ "```" ∷ "X-RateLimit-Limit: 200"
    ∷ "X-RateLimit-Remaining: 195" ∷ "X-RateLimit-Reset: 1700000060" ∷ "```" ∷ ""
    ∷ "### Handling Rate Limits" ∷ ""
    ∷ "When you exceed the rate limit, you receive a `429` status code. The response includes a `Retry-After` header indicating how many seconds to wait."
    ∷ "" ∷ "```json" ∷ "{" ∷ "  \"error\": {"
    ∷ "    \"message\": \"Rate limit exceeded. Please retry after 3 seconds.\","
    ∷ "    \"type\": \"rate_limit_error\"" ∷ "  }" ∷ "}" ∷ "```" ∷ "" ∷ "### Best Practices" ∷ ""
    ∷ "1. **Monitor headers** - Track `X-RateLimit-Remaining` to proactively throttle"
    ∷ "2. **Implement backoff** - Use exponential backoff with jitter on 429 errors"
    ∷ "3. **Batch requests** - Combine multiple messages into a single conversation"
    ∷ "4. **Cache responses** - Avoid repeated identical requests"
    ∷ "5. **Use streaming** - Streaming counts as a single request regardless of output length" ∷ []

abbrev pub pricing_lines : List String
pricing_lines =
    "## Pricing" ∷ ""
    ∷ "Pricing is based on token usage per model. Check the dashboard for current rates." ∷ ""
    ∷ "| Model | Input (per 1M tokens) | Output (per 1M tokens) |"
    ∷ "|-------|----------------------|----------------------|"
    ∷ "| deepseek-v3 | varies | varies |" ∷ "| claude-haiku | varies | varies |"
    ∷ "| gemini-flash | varies | varies |" ∷ "" ∷ "New accounts receive **$1.00 free credit**." ∷ ""
    ∷ "Balance can be topped up by contacting an administrator." ∷ []
